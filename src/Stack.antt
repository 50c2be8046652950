-- ===== src/Stack.antt =====
-- The globals of src/ip_stack.c, with the address of src/eth_driver.c that they are used with, and
-- the calls that start and stop the stack.
pub mod Address
pub mod Input
pub mod Poll
pub mod Fields
pub mod Sent
use eth_transfer.Base.{ℕ, List, Bool, true, false, if◌then◌else◌, u16, minus_one}
use eth_transfer.Clock.{Clock}
use eth_transfer.Tcp.{TcpConnection, listen}

pub record IpStack : Type 0 where
  pub clock : Clock
  pub ip_addr : ℕ
  pub identification_counter : ℕ
  pub connection_counter : ℕ
  pub tcp_conn : TcpConnection
  pub mac_address : List ℕ

-- `init_ip`, given what `init_ethernet` returned and the value of `rand()`.
unfoldable pub init_ip : Bool → ℕ → ℕ → IpStack → Bool × IpStack
init_ip ethernet_ready random addr s =
    if ethernet_ready
    then (
      true,
      record s {
        ip_addr = addr;
        identification_counter = u16 random;
        connection_counter = 1;
        tcp_conn = record (s.tcp_conn) { state = listen };
      },
    )
    else (false, s)

-- `close_ip`, given what `close_ethernet` returns.
unfoldable pub close_ip : Bool → IpStack → Bool × IpStack
close_ip closed s = (
  closed,
  record s { connection_counter = minus_one; tcp_conn = record (s.tcp_conn) { state = listen } },
)
