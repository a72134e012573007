-- ===== src/Daemon.antt =====
-- tftpd/tftpd.c: the options of a request. `struct daemon_protocol_option protocol_options[]` is a
-- record with a field for each index.
pub mod Blksize
pub mod Negotiate
pub mod Request
pub mod Table
pub mod Access
pub mod Normalize
use network_tftp_tftp_hpa.Prelude.{ℕ, ◌+◌, ◌%◌, ◌^◌, Bool, true, false, not, ◌&&◌, List, [], length}

-- enum otype
pub data Otype : Type 0 where
  pot_uint pot_str : Otype

-- struct daemon_protocol_option; nsize is the length of `name` with its NUL.
pub record ProtocolOption : Type 0 where
  pub name : List ℕ
  pub otype : Otype
  pub dsize : ℕ
  pub refused : Bool
  pub requested : Bool
  pub acked : Bool
  pub client_name : List ℕ
  pub uint : ℕ
  pub str : List ℕ

-- UOPT, SOPT
abbrev pub option_named : List ℕ → Otype → ProtocolOption
option_named name otype = record {
  name = name;
  otype = otype;
  dsize = 0;
  refused = false;
  requested = false;
  acked = false;
  client_name = [];
  uint = 0;
  str = [];
}

-- enum tsize_mode
pub data TsizeMode : Type 0 where
  tsize_nak tsize_read tsize_write : TsizeMode

-- The options, and the variables of tftpd.c that their negotiation reads or sets.
pub record Daemon : Type 0 where
  pub blksize : ProtocolOption
  pub blksize2 : ProtocolOption
  pub cookie : ProtocolOption
  pub rollover : ProtocolOption
  pub timeout : ProtocolOption
  pub tsize : ProtocolOption
  pub utimeout : ProtocolOption
  pub windowsize : ProtocolOption
  pub segsize : ℕ
  pub window : ℕ
  pub rexmtval : ℕ
  pub timeout_now : ℕ
  pub maxtimeout : ℕ
  pub rollover_val : ℕ
  pub tsize_mode : TsizeMode
  pub tsize_size : ℕ

-- struct daemon_options and struct common_options, as far as negotiation reads them.
pub record Limits : Type 0 where
  pub max_windowsize : ℕ
  pub max_windowbytes : ℕ
  pub reject_all_options : Bool

-- Whether opt_requested() returns the option and not NULL.
abbrev pub opt_requested : ProtocolOption → Bool
opt_requested po = po.requested && not po.refused

abbrev pub opt_granted : ProtocolOption → Bool
opt_granted po = po.acked && (po.requested && not po.refused)

-- po->flags |= POF_ACK
abbrev pub grant : ProtocolOption → ProtocolOption
grant po = record po { acked = true }

-- The same with po->uint set.
abbrev pub grant_value : ℕ → ProtocolOption → ProtocolOption
grant_value value po = record po { acked = true; uint = value }
