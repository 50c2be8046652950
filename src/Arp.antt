-- ===== src/Arp.antt =====
-- ARP in src/ip_stack.c: `new_arp_packet` and `handle_arp_packet`. The header is in host order, as
-- behind `ntoh_arp`.
pub mod Reply
use eth_transfer.Base.{
  ℕ, ◌+◌, List, [], ◌∷◌, ◌++◌, drop, take, slice, get_or, Bool, true, false, ◌&&◌, ◌||◌, ◌==◌, sle,
  slt, minus_one, if◌then◌else◌,
}
use eth_transfer.Frame.{be16, be32, eth_bytes}
use eth_transfer.Ethernet.{EthPacket, new_eth_packet, be16_at, be32_at}

-- `arp_header`
pub record ArpHeader : Type 0 where
  pub htype : ℕ
  pub ptype : ℕ
  pub hlen : ℕ
  pub plen : ℕ
  pub oper : ℕ
  pub sha : List ℕ
  pub spa : ℕ
  pub tha : List ℕ
  pub tpa : ℕ

pub record ArpPacket : Type 0 where
  pub eth_packet : EthPacket
  pub arp_header : ArpHeader
  pub length : ℕ

-- The header in the data of a packet, behind `ntoh_arp`.
unfoldable pub read_arp : List ℕ → ArpHeader
read_arp buf = record {
  htype = be16_at buf 14;
  ptype = be16_at buf 16;
  hlen = get_or buf 18 0;
  plen = get_or buf 19 0;
  oper = be16_at buf 20;
  sha = slice buf 22 6;
  spa = be32_at buf 28;
  tha = slice buf 32 6;
  tpa = be32_at buf 38;
}

-- The header as it is stored, behind `hton_arp`.
unfoldable pub arp_bytes : ArpHeader → List ℕ
arp_bytes h =
    be16 h.htype
    ++ (be16 h.ptype
        ++ (h.hlen ∷ h.plen ∷ (be16 h.oper ++ (h.sha ++ (be32 h.spa ++ (h.tha ++ be32 h.tpa))))))

-- `valid` of `new_arp_packet`.
unfoldable pub is_valid_arp : EthPacket → ArpHeader → Bool
is_valid_arp eth h =
    sle 42 eth.length
    && (h.htype == 1)
    && (h.ptype == 0x0800)
    && (h.hlen == 6)
    && (h.plen == 4)
    && (h.oper == 1 || h.oper == 2)

unfoldable pub new_arp_packet : EthPacket → Bool → ArpPacket
new_arp_packet eth validate =
    let header = read_arp eth.buffer in
    if validate
    then record {
      eth_packet = eth;
      arp_header = header;
      length = if is_valid_arp eth header then 28 else minus_one;
    }
    else record {
      eth_packet = record eth { length = 42 };
      arp_header = record header { htype = 1; ptype = 0x0800; hlen = 6; plen = 4 };
      length = 28;
    }

-- The answer to a request, in memory that holds `stale`: the fields that the function sets, and the
-- bytes that go to `send_packet`.
unfoldable pub arp_answer : ℕ → List ℕ → List ℕ → ArpPacket → List ℕ
arp_answer ip_addr mac_address stale rx =
    let tx = new_arp_packet (new_eth_packet stale) false in
    let buffer = rx.eth_packet.buffer in
    let header = record (tx.arp_header) {
      oper = 2;
      sha = mac_address;
      spa = ip_addr;
      tha = rx.arp_header.sha;
      tpa = rx.arp_header.spa;
    } in
    take tx.eth_packet.length (
      (eth_bytes (slice buffer 6 6) mac_address (be16_at buffer 12) ++ arp_bytes header)
      ++ drop 42 stale)

-- The packets that are sent.
unfoldable pub handle_arp_packet : ℕ → List ℕ → List ℕ → ArpPacket → List (List ℕ)
handle_arp_packet ip_addr mac_address stale rx =
    if slt rx.length 0
    then []
    else if rx.arp_header.oper == 1
    then (if rx.arp_header.tpa == ip_addr then arp_answer ip_addr mac_address stale rx ∷ [] else [])
    else []
