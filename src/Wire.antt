-- ===== src/Wire.antt =====
-- Packets in memory: the packed structs of src/ip_stack_local.h and src/eth_driver.h over a list of
-- bytes, and the byte order functions of src/ip_stack.c, which work in place. The host is
-- little-endian, as the Raspberry Pi is; an offset stands for a pointer into the packet's buffer.
pub mod Order
use eth_transfer.Base.{ℕ, ◌+◌, ◌*◌, ◌/◌, ◌%◌, ◌^◌, List, [], ◌∷◌, ◌++◌, get_or, set, slice}

-- `uint16_t` and `uint32_t` reads and writes at an offset.
unfoldable pub load16 : List ℕ → ℕ → ℕ
load16 buf off = get_or buf off 0 + get_or buf (off + 1) 0 * 2 ^ 8

unfoldable pub load32 : List ℕ → ℕ → ℕ
unfolding load16
load32 buf off = load16 buf off + load16 buf (off + 2) * 2 ^ 16

unfoldable pub store16 : List ℕ → ℕ → ℕ → List ℕ
store16 buf off v = set (set buf off (v % 2 ^ 8)) (off + 1) (v / 2 ^ 8 % 2 ^ 8)

unfoldable pub store32 : List ℕ → ℕ → ℕ → List ℕ
unfolding store16
store32 buf off v = store16 (store16 buf off (v % 2 ^ 16)) (off + 2) (v / 2 ^ 16 % 2 ^ 16)

-- `ntohs` and `htons`, `ntohl` and `htonl` of a little-endian host.
abbrev pub ntohs : ℕ → ℕ
ntohs n = n % 2 ^ 8 * 2 ^ 8 + n / 2 ^ 8 % 2 ^ 8

abbrev pub ntohl : ℕ → ℕ
ntohl n = ntohs (n % 2 ^ 16) * 2 ^ 16 + ntohs (n / 2 ^ 16 % 2 ^ 16)

-- `x = ntohs(x)` and `x = ntohl(x)` on a field in memory.
unfoldable pub swap16 : List ℕ → ℕ → List ℕ
unfolding load16 store16
swap16 buf off = store16 buf off (ntohs (load16 buf off))

unfoldable pub swap32 : List ℕ → ℕ → List ℕ
unfolding load32 store32
swap32 buf off = store32 buf off (ntohl (load32 buf off))

-- Each `ntoh` function of the source and its `hton` counterpart have one body, as `ntohs` and
-- `htons` are one function. The argument is the offset of the header.
unfoldable pub ntoh_ip : List ℕ → ℕ → List ℕ
unfolding swap16 swap32
ntoh_ip buf at =
    swap32 (swap32 (swap16 (swap16 (swap16 buf (at + 2)) (at + 4)) (at + 6)) (at + 12)) (at + 16)

unfoldable pub ntoh_arp : List ℕ → ℕ → List ℕ
unfolding swap16 swap32
ntoh_arp buf at =
    swap32 (swap32 (swap16 (swap16 (swap16 buf at) (at + 2)) (at + 6)) (at + 14)) (at + 24)

unfoldable pub ntoh_ping : List ℕ → ℕ → List ℕ
unfolding swap16
ntoh_ping buf at = swap16 (swap16 (swap16 buf (at + 2)) (at + 4)) (at + 6)

-- The checksum, at offset 16, stays in network order.
unfoldable pub ntoh_tcp : List ℕ → ℕ → List ℕ
unfolding swap16 swap32
ntoh_tcp buf at =
    swap16
      (swap16
        (swap16 (swap32 (swap32 (swap16 (swap16 buf at) (at + 2)) (at + 4)) (at + 8)) (at + 12))
        (at + 14))
      (at + 18)

unfoldable pub ntoh_eth : List ℕ → List ℕ
unfolding swap16
ntoh_eth buf = swap16 buf 12
