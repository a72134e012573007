-- ===== src/Serve.antt =====
-- tftpd/tftpd.c: what the daemon does for a request once its file is open.
pub mod Exchange
pub mod Reading
pub mod Writing
pub mod Tries
pub mod Outcome
pub mod Sent
use network_tftp_tftp_hpa.Prelude.{
  ℕ, ◌*◌, ◌%◌, ◌^◌, Bool, false, ◌||◌, Option, none, some, List, leb, if◌then◌else◌,
}
use network_tftp_tftp_hpa.Xfer.{Config}
use network_tftp_tftp_hpa.Daemon.{Daemon}
use network_tftp_tftp_hpa.Errors.{Failure, error_msg, error_code, error_packet}

-- What recv_time() brings: an error that is not ETIMEDOUT, the end of the timeout, or a packet of
-- n bytes with its first two fields.
pub data Heard : Type 0 where
  recv_failed : Heard
  expired : Heard
  arrived : (n opcode block : ℕ) → Heard

-- timer(): the new timeout, or none for exit(0).
unfoldable pub timer : (maxtimeout : ℕ) → (timeout_quit : Bool) → (timeout : ℕ) → Option ℕ
timer maxtimeout timeout_quit timeout =
    let next = timeout * 2 % 2 ^ 64 in
    if leb maxtimeout next || timeout_quit then none else some next

-- nak(): the packet that is sent. The message of the caller is not used.
unfoldable pub nak : (strerror : ℕ → List ℕ) → Failure → List ℕ
unfolding error_msg error_code
nak strerror error = let msg = error_msg strerror error in error_packet (error_code error msg) msg

-- The fields of `xfer` that both functions set.
abbrev pub xfer_config : Daemon → (max_bytes : ℕ) → Config
xfer_config d max_bytes = record {
  blocksize = d.segsize;
  windowsize = d.window;
  max_bytes = max_bytes;
  rollover = d.rollover_val;
  resend_oack = false;
}
