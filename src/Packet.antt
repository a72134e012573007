-- ===== src/Packet.antt =====
-- common/tftp.h: opcodes, packets and limits. The fields of a packet are in host
-- order: htons() and ntohs() only convert between the wire and these.
pub mod Opcode
use network_tftp_tftp_hpa.Prelude.{ℕ, ◌*◌, List}

-- A packet of at least four bytes: struct tftphdr, and the bytes of th_data.
pub record Packet : Type 0 where
  pub opcode : ℕ
  pub block : ℕ
  pub payload : List ℕ

abbrev pub min_segsize : ℕ
min_segsize = 8

abbrev pub segsize : ℕ
segsize = 512

abbrev pub max_segsize : ℕ
max_segsize = 65464

abbrev pub usec_per_sec : ℕ
usec_per_sec = 1000000

abbrev pub min_timeout_sec : ℕ
min_timeout_sec = 1

abbrev pub max_timeout_sec : ℕ
max_timeout_sec = 255

abbrev pub min_timeout : ℕ
min_timeout = 10000

abbrev pub max_timeout : ℕ
max_timeout = max_timeout_sec * usec_per_sec

abbrev pub def_timeout : ℕ
def_timeout = 1 * usec_per_sec

abbrev pub timeout_limit : ℕ
timeout_limit = 63

abbrev pub max_cookie : ℕ
max_cookie = 255
