-- ===== src/Packet/Opcode.antt =====
-- enum tftp_opcode of common/tftp.h
use network_tftp_tftp_hpa.Prelude.{ℕ}

abbrev pub rrq : ℕ
rrq = 1

abbrev pub wrq : ℕ
wrq = 2

abbrev pub block_data : ℕ
block_data = 3

abbrev pub ack : ℕ
ack = 4

abbrev pub error : ℕ
error = 5

abbrev pub oack : ℕ
oack = 6
