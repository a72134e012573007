-- ===== src/Xfer.antt =====
-- common/tftp-xfer.h and the helpers of common/tftp-xfer.c: the transfer engine's results, its
-- configuration, and what it asks of the network and of the file adapter.
pub mod Block
pub mod Receive
pub mod Send
use network_tftp_tftp_hpa.Prelude.{
  ℕ, ◌+◌, ◌-◌, ◌%◌, ◌^◌, ◌≡◌, Bool, Option, none, some, List, ◌==◌, if◌then◌else◌,
}
use network_tftp_tftp_hpa.Packet.{Packet}

-- enum tftp_xfer_status
pub data Status : Type 0 where
  finished send_error recv_error read_error write_error bad_data size_exceeded peer_error : Status

-- struct tftp_xfer_result
pub record Result : Type 0 where
  pub status : Status
  pub bytes : ℕ
  pub packet : Option Packet
  pub error : ℕ
  pub last_block : ℕ

-- struct tftp_xfer without the callbacks and their contexts
pub record Config : Type 0 where
  pub blocksize : ℕ
  pub windowsize : ℕ
  pub max_bytes : ℕ
  pub rollover : ℕ
  pub resend_oack : Bool

-- What a callback of struct tftp_xfer_io_ops returns: a value and the adapter's new state, or -1
-- (or NULL) with errno.
pub data Answer (S A : Type 0) : Type 0 where
  ok : A → S → Answer S A
  fail : ℕ → S → Answer S A

-- What one call of recv() brings: an error (errno), an expired timer (control goes to the retry
-- buffer), fewer than four bytes, or a datagram as recv() reports it.
pub data Event : Type 0 where
  failed : ℕ → Event
  timeout : Event
  runt : Event
  datagram : Packet → Event

-- What the engine hands to send().
pub data Wire : Type 0 where
  ack : ℕ → Wire
  block : Packet → ℕ → Wire
  reply : List ℕ → Wire

-- set_result: result->packet and result->last_block stay as they were initialised.
abbrev pub set_result : Status → ℕ → ℕ → Result
set_result status error bytes = record {
  status = status;
  bytes = bytes;
  packet = none;
  error = error;
  last_block = 0;
}

-- if (!errno) errno = EIO;
abbrev pub io_errno : ℕ → ℕ
io_errno e = if e == 0 then 5 else e

-- Arithmetic of uintmax_t.
abbrev pub u64 : ℕ
u64 = 2 ^ 64

abbrev pub add64 : ℕ → ℕ → ℕ
add64 a b = (a + b) % u64

abbrev pub sub64 : ℕ → ℕ → ℕ
sub64 a b = (a + u64 - b) % u64

-- Where a step leaves the engine: waiting in recv(), or returned with a result.
pub data Next (S : Type 0) : Type 0 where
  wait : S → Next S
  stop : Result → S → Next S
