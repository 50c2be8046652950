-- ===== src/Lib.antt =====
-- EthTransfer: a user-space TCP/IP stack on a Raspberry Pi, with an ENC28J60 Ethernet chip on GPIO
-- pins below it and a small web server above it.
--
-- The parts, from the pins up. src/gpio_spi.c drives an SPI bus pin by pin and sends the chip its
-- register commands. src/eth_driver.c moves packets between the memory of the chip and buffers.
-- src/ip_stack.c answers ARP requests and pings, keeps one TCP connection and offers calls to open,
-- read, write, shut down and close it. src/web_server.c makes those calls and takes HTTP headers
-- apart. `ip_stack_poll` is the only engine: it takes received packets to their handlers and lets
-- `send_tcp_packet` send, and each call of the web server that waits calls it.
--
-- Which file models which part:
--   Spi, Spi/Banks        the GPIO accesses, the SPI bytes and commands, and the bank stack of
--                         src/gpio_spi.c
--   Spi/Gpio, Spi/Setup   the pin directions, `init_gpio`, `drop_root` and `close_gpio`, given what
--                         the system calls return
--   Spi/Revision          `get_revision_id` on the text of /proc/cpuinfo, and `get_peri_base`
--   Spi/Chip              no code: what the Ethernet chip sees of the pins, as commands, and the
--                         register bank that they put it in
--   Driver                `test_present`, `set_rx_range`, `get_packet`, `send_packet` of
--                         src/eth_driver.c; Driver/Setup has `init_ethernet`,
--                         `set_receive_enable` and `close_ethernet`, Driver/MacText the text
--                         of eth_mac.txt, Driver/Registers the register numbers, and
--                         Driver/Phy `soft_reset`, `wait_busy` and the
--                         physical registers of src/gpio_spi.c
--   Ethernet              `eth_packet` of src/eth_driver.h and its big-endian fields
--   Wire                  the `ntoh` and `hton` functions, in place on the bytes of a packet
--   Arp, Ip, Ping         `new_arp_packet`, `handle_arp_packet`, `new_ip_packet` and
--                         `handle_ping_packet` of src/ip_stack.c
--   Stack                 the globals of src/ip_stack.c, `init_ip` and `close_ip`; Stack/Input has
--                         `handle_rx_packet` and `handle_ip_packet`, Stack/Poll `ip_stack_poll`,
--                         Stack/Address `pack_ip_addr` and `unpack_ip_addr`
--   Checksum, Frame       the internet checksum, and the headers of sent packets as bytes
--   Circle                the two copies into and out of a ring buffer
--   Options               `scan_options`
--   Clock                 `get_now` and `check_timeout`
--   Tcp                   `tcp_connection` and the constants of src/ip_stack_local.h
--   Tcp/Segments          `add_segment`
--   Tcp/Receive           `handle_tcp_packet`, from `ntoh_tcp` on
--   Tcp/Send              `send_tcp_packet`
--   Tcp/Api               `open_tcp`, `read_tcp`, `write_tcp`, `close_tcp`, `shutdown_tcp`
--   Tcp/Lifecycle         all calls that change the connection, in any order, as a step relation
--   Tcp/Exchange          the receive side over segments and calls in any order, as a relation
--   Web                   `header_scan`, `find_needle`, `split_header` and `header_value` of
--                         src/web_server.c
--   Web/Upload            `parse_http_content`
--   Web/Request           the choice that `main` makes on a request
--   Web/Session           `send_response`, the `send_http` functions and `shutdown_close`
--   Web/Arguments         the arguments of `main`; Web/Server has its loop
-- Files below these hold their theorems; Base holds what all share, and Tests the runs.
--
-- How the code is read. Each function of the source is a function of the same name on the state it
-- uses, which it returns changed. A number is the bit pattern of its C type: sums and differences
-- of 32 bits wrap, and the comparisons of `int` values are signed, as in the source. A buffer is the
-- list of its bytes; a single byte that is read behind its end is 0. `none` stands for a `memcpy` out
-- of range, for the store of the web server outside its read buffer, for `exit`, and for a loop whose
-- fuel ran out. The host is little-endian, `int` and `long` have 32 bits and `char` is unsigned, as on the Raspberry Pi.
-- A packet that is built is the list of the bytes that leave; what is left in its memory from before
-- is an argument, and so are the values of `rand` and of `clock_gettime`, the words that `gpio_get`
-- reads, and what `poll` does inside `write_tcp`.
--
-- Fuel. `scan_options` has a bound in Options/Returns: more rounds than bytes are enough where it
-- returns at all, and `handle_tcp_packet` gives it 64 for at most 40 bytes. The loop of
-- `add_segment` gets one round more than there are entries, and each round but the last drops one.
-- `header_value` gets one line more than there are bytes. The loop of `write_tcp` and the wait at
-- the end of `send_packet` depend on the peer and on the chip, and take any fuel; so do the waits of
-- src/gpio_spi.c and the loops of src/web_server.c that wait for the peer. The loop that sends a file
-- gets its fuel as the number of its rounds, one for each 4095 bytes. `get_revision_id` gets a round
-- for each byte, and each round moves on by one byte at least.
--
-- Outside the code: the system is arguments. `init_gpio` takes the text of /proc/cpuinfo and what
-- `open`, `mmap` and the two `setuid` give; eth_mac.txt is its text; the web
-- server takes the bytes of the file that it serves, the answers at the terminal one by one, and
-- which files can be opened for writing. `scanf`, `strstr` and `strncmp` are functions in Base/Texts.
--
-- Not modelled: the test program under src/tests, which prints the registers of a real chip, the
-- `usleep` calls, and what the program prints.
pub mod Arp
pub mod Base
pub mod Checksum
pub mod Circle
pub mod Clock
pub mod Driver
pub mod Ethernet
pub mod Frame
pub mod Ints
pub mod Ip
pub mod Options
pub mod Ping
pub mod Spi
pub mod Stack
pub mod Tcp
pub mod Tests
pub mod Web
pub mod Wire
