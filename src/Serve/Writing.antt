-- ===== src/Serve/Writing.antt =====
-- tftp_recvfile() of tftpd/tftpd.c: a write request, and what becomes of the file.
use network_tftp_tftp_hpa.Prelude.{
  ℕ, ◌+◌, Bool, true, false, ◌&&◌, Option, none, some, List, [], ◌++◌, leb, ◌==◌, if◌then◌else◌,
}
use network_tftp_tftp_hpa.Packet.Opcode
use network_tftp_tftp_hpa.Stdio.{Stream}
use network_tftp_tftp_hpa.Xfer.{Event, Wire, Result, Status, stop, wait}
use network_tftp_tftp_hpa.Xfer.Receive.{Receiver}
use network_tftp_tftp_hpa.Xfer.Receive.Timed.{alive, timed_xfer_recv}
use network_tftp_tftp_hpa.Xfer.Receive.Timed
use network_tftp_tftp_hpa.Io.{Io, tftp_io_writer_start}
use network_tftp_tftp_hpa.Io.Writer.{writer_ops}
use network_tftp_tftp_hpa.Daemon.{Daemon}
use network_tftp_tftp_hpa.Errors.{protocol, system, be16}
use network_tftp_tftp_hpa.Serve.{Heard, recv_failed, expired, arrived, timer, nak, xfer_config}

-- The calls of discard_upload: each one's errno, 0 for success, and what fclose() still writes if
-- fflush() fails.
pub record Os : Type 0 where
  pub fflush_errno : ℕ
  pub ftruncate_errno : ℕ
  pub unlink_errno : ℕ
  pub unflushed : List ℕ

-- discard_upload: what the file holds after it, or none if it is removed.
unfoldable pub discard_upload : Os → (cancreate : Bool) → List ℕ → Option (List ℕ)
discard_upload os cancreate content =
    let late : List ℕ = if os.fflush_errno == 0 then [] else os.unflushed in
    let cut : List ℕ = if os.ftruncate_errno == 0 then [] else content in
    if cancreate then (if os.unlink_errno == 0 then none else some content) else some (cut ++ late)

-- daemon_xfer_dally: the ACK that is sent again, if the last DATA packet comes again.
unfoldable pub daemon_xfer_dally : (last_acked : ℕ) → Heard → Option (List ℕ)
daemon_xfer_dally last_acked recv_failed = none
daemon_xfer_dally last_acked expired = none
daemon_xfer_dally last_acked (arrived n opcode block) =
    if leb 4 n && (opcode == Opcode.block_data && block == last_acked)
    then some (be16 Opcode.ack ++ be16 block)
    else none

-- The switch on result.status, less the log.
abbrev pub nak_of_write : (strerror : ℕ → List ℕ) → Result → Option (List ℕ)
nak_of_write strerror r = elim r.status [
  | Status.bad_data ↦ some (nak strerror (protocol 4))
  | Status.size_exceeded ↦ some (nak strerror (protocol 2))
  | Status.write_error ↦ some (nak strerror (system r.error))
  | _ ↦ none
]

-- initial_reply: the OACK, or an ACK of block 0.
abbrev pub initial_reply : (oack : Option (List ℕ)) → List ℕ
initial_reply none = be16 Opcode.ack ++ be16 0
initial_reply (some oack) = be16 Opcode.oack ++ oack

abbrev pub is_ok : Status → Bool
is_ok Status.finished = true
is_ok _ = false

-- The function returned: what the file holds (none if it is removed), the packet of nak(), what was
-- sent in the transfer, and the ACK of daemon_xfer_dally().
pub record Served : Type 0 where
  pub content : Option (List ℕ)
  pub refusal : Option (List ℕ)
  pub sent : List Wire
  pub repeated : Option (List ℕ)

-- Still in the transfer; ended in it by exit(0) of timer(), with what the file holds then; or
-- returned.
pub data Write : Type 0 where
  underway : Receiver Io → Write
  exited : List ℕ → Write
  served : Served → Write

-- From the label out on.
unfoldable pub finish_upload :
    Os
    → (cancreate : Bool) → Result
    → List ℕ
    → (refusal : Option (List ℕ)) → List Wire
    → Heard
    → Served
unfolding discard_upload daemon_xfer_dally
finish_upload os cancreate r content refusal sent last =
    let done = is_ok r.status in
    record {
      content = if done then some content else discard_upload os cancreate content;
      refusal = refusal;
      sent = sent;
      repeated = if done then daemon_xfer_dally r.last_block last else none;
    }

module _ (strerror : ℕ → List ℕ) (os : Os) (cancreate : Bool) (send_errno : List Wire → ℕ)
    (slots : ℕ) (file : Stream) (convert : Bool) (d : Daemon) where
  -- result.status is TFTP_XFER_WRITE_ERROR before the transfer, which EINVAL ends.
  abbrev pub unstarted : Result
  unstarted = record {
    status = Status.write_error;
    bytes = 0;
    packet = none;
    error = 22;
    last_block = 0;
  }

  -- tftp_recvfile: `es` is what comes in the transfer and `last` what comes while it dallies.
  unfoldable pub tftp_recvfile :
      (oack : Option (List ℕ)) → (max_upload : ℕ) → List Event → (last : Heard) → Write
  unfolding finish_upload nak timer timed_xfer_recv
  tftp_recvfile oack max_upload es last = elim (tftp_io_writer_start file convert slots d.segsize) [
    | none ↦
        served (
          finish_upload os cancreate unstarted file.output (some (nak strerror (system 22))) []
            last)
    | some io ↦
        elim (timed_xfer_recv writer_ops (xfer_config d max_upload) send_errno
          (timer d.maxtimeout false) d.rexmtval (d.segsize + 4) (some (initial_reply oack)) none io
          es) [
            | Timed.exited st ↦ exited st.io.file.output
            | alive (wait st) ↦ underway st
            | alive (stop r st) ↦ served (
                finish_upload os cancreate r st.io.file.output (nak_of_write strerror r) st.sent
                  last)
          ]
  ]
