-- ===== src/Daemon/Table.antt =====
-- tftpd/tftpd.c: protocol_options[] and the variables of negotiation as the program starts.
use network_tftp_tftp_hpa.Prelude.{ℕ, ◌*◌, List, [], ◌∷◌, ◌++◌}
use network_tftp_tftp_hpa.Packet.{timeout_limit, def_timeout}
use network_tftp_tftp_hpa.Daemon.{Daemon, pot_uint, pot_str, option_named, tsize_nak}

abbrev pub blksize_name : List ℕ
blksize_name = b'b' ∷ b'l' ∷ b'k' ∷ b's' ∷ b'i' ∷ b'z' ∷ b'e' ∷ []

abbrev pub tsize_name : List ℕ
tsize_name = b't' ∷ b's' ∷ b'i' ∷ b'z' ∷ b'e' ∷ []

abbrev pub windowsize_name : List ℕ
windowsize_name = b'w' ∷ b'i' ∷ b'n' ∷ b'd' ∷ b'o' ∷ b'w' ∷ b's' ∷ b'i' ∷ b'z' ∷ b'e' ∷ []

-- segsize, windowsize and tsize have no initializer.
abbrev pub startup : Daemon
startup = record {
  blksize = option_named blksize_name pot_uint;
  blksize2 = option_named (blksize_name ++ b'2' ∷ []) pot_uint;
  cookie = option_named (b'c' ∷ b'o' ∷ b'o' ∷ b'k' ∷ b'i' ∷ b'e' ∷ []) pot_str;
  rollover = option_named (b'r' ∷ b'o' ∷ b'l' ∷ b'l' ∷ b'o' ∷ b'v' ∷ b'e' ∷ b'r' ∷ []) pot_uint;
  timeout = option_named (b't' ∷ b'i' ∷ b'm' ∷ b'e' ∷ b'o' ∷ b'u' ∷ b't' ∷ []) pot_uint;
  tsize = option_named tsize_name pot_uint;
  utimeout = option_named (b'u' ∷ b't' ∷ b'i' ∷ b'm' ∷ b'e' ∷ b'o' ∷ b'u' ∷ b't' ∷ []) pot_uint;
  windowsize = option_named windowsize_name pot_uint;
  segsize = 0;
  window = 0;
  rexmtval = def_timeout;
  timeout_now = def_timeout;
  maxtimeout = timeout_limit * def_timeout;
  rollover_val = 0;
  tsize_mode = tsize_nak;
  tsize_size = 0;
}
