-- ===== src/Driver/Registers.antt =====
-- The registers of the chip and their bits, from src/eth_driver_local.h, that the set-up uses.
use eth_transfer.Base.{ℕ}

abbrev pub estat : ℕ
estat = 0x1D

abbrev pub econ1_rxen : ℕ
econ1_rxen = 0x04

abbrev pub macon1 : ℕ
macon1 = 0x00

abbrev pub macon3 : ℕ
macon3 = 0x02

abbrev pub macon4 : ℕ
macon4 = 0x03

abbrev pub mabbipg : ℕ
mabbipg = 0x04

abbrev pub maipgl : ℕ
maipgl = 0x06

abbrev pub mamxfll : ℕ
mamxfll = 0x0A

abbrev pub micmd : ℕ
micmd = 0x12

abbrev pub miregadr : ℕ
miregadr = 0x14

abbrev pub miwrl : ℕ
miwrl = 0x16

abbrev pub miwrh : ℕ
miwrh = 0x17

abbrev pub mirdl : ℕ
mirdl = 0x18

abbrev pub macon1_txpaus : ℕ
macon1_txpaus = 0x08

abbrev pub macon1_rxpaus : ℕ
macon1_rxpaus = 0x04

abbrev pub macon1_passall : ℕ
macon1_passall = 0x02

abbrev pub macon1_marxen : ℕ
macon1_marxen = 0x01

abbrev pub macon3_padcfg : ℕ
macon3_padcfg = 0xE0

abbrev pub macon3_txcrcen : ℕ
macon3_txcrcen = 0x10

abbrev pub macon3_frmlnen : ℕ
macon3_frmlnen = 0x02

abbrev pub macon3_fuldpx : ℕ
macon3_fuldpx = 0x01

abbrev pub macon4_defer : ℕ
macon4_defer = 0x40

abbrev pub micmd_miird : ℕ
micmd_miird = 0x01

abbrev pub maadr1 : ℕ
maadr1 = 0x04

abbrev pub maadr2 : ℕ
maadr2 = 0x05

abbrev pub maadr3 : ℕ
maadr3 = 0x02

abbrev pub maadr4 : ℕ
maadr4 = 0x03

abbrev pub maadr5 : ℕ
maadr5 = 0x00

abbrev pub maadr6 : ℕ
maadr6 = 0x01

abbrev pub mistat : ℕ
mistat = 0x0A

abbrev pub mistat_busy : ℕ
mistat_busy = 0x01

abbrev pub phcon1 : ℕ
phcon1 = 0x00

abbrev pub phcon1_pdpxmd : ℕ
phcon1_pdpxmd = 0x0100

abbrev pub erdptl : ℕ
erdptl = 0x00

abbrev pub ewrptl : ℕ
ewrptl = 0x02
