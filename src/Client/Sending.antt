-- ===== src/Client/Sending.antt =====
-- tftp_sendfile() of tftp/tftp.c.
use network_tftp_tftp_hpa.Prelude.{ℕ, not, Bool, Option, none, some, List, ◌==◌, if◌then◌else◌}
use network_tftp_tftp_hpa.Stdio.{Stream}
use network_tftp_tftp_hpa.Xfer.{Event, Wire, Result, Status, stop, wait}
use network_tftp_tftp_hpa.Xfer.Send.{Sender, tftp_xfer_send}
use network_tftp_tftp_hpa.Io.{Io, tftp_io_reader_start}
use network_tftp_tftp_hpa.Io.Reader.{reader_ops}
use network_tftp_tftp_hpa.FilePath.{str_eq}
use network_tftp_tftp_hpa.Text.Codes.{codes}
use network_tftp_tftp_hpa.Errors.{system, make_errpacket}
use network_tftp_tftp_hpa.Client.{Optreq}
use network_tftp_tftp_hpa.Client.Request.{asked_for, makerequest}
use network_tftp_tftp_hpa.Client.Exchange.{
  Sockaddr, Peer, Arrival, wrq_reply, asking, settled, aborted, given_up, Exchange, exchange,
  exchange_start, ex_oserr, ex_protocol,
}
use network_tftp_tftp_hpa.Client.Receiving.{client_config}

-- The states of the function, as in Client/Receiving.
pub data Uploaded : Type 0 where
  requesting timed_out : Uploaded
  unsent : (code : ℕ) → (packet : Option (List ℕ)) → Uploaded
  sending : Sender Io → Uploaded
  uploaded : (code : ℕ) → (packet : Option (List ℕ)) → Result → Sender Io → Uploaded

-- The switch on result.status.
abbrev pub send_code : Result → ℕ
send_code r = elim r.status [
  | Status.read_error ↦ ex_oserr
  | Status.send_error ↦ ex_oserr
  | Status.recv_error ↦ ex_oserr
  | Status.peer_error ↦ ex_protocol
  | _ ↦ 0
]

abbrev pub send_nak : (strerror : ℕ → List ℕ) → Result → Option (List ℕ)
send_nak strerror r = elim r.status [
  | Status.read_error ↦ some (make_errpacket strerror (system r.error) none)
  | _ ↦ none
]

module _ (strerror : ℕ → List ℕ) (send_errno : List Wire → ℕ) (errno : ℕ) (file : Stream)
    (convert : Bool) where
  -- From the call of tftp_io_reader_start on; resend_oack is set to the window.
  unfoldable pub send_file : Optreq → List Event → Uploaded
  unfolding make_errpacket
  send_file ack es = elim (tftp_io_reader_start file convert ack.window ack.window ack.blksize) [
    | none ↦ unsent ex_oserr (some (make_errpacket strerror (system 22) none))
    | some io ↦
        elim (tftp_xfer_send reader_ops (client_config ack (not (ack.window == 0))) send_errno errno
          io es) [
            | wait st ↦ sending st
            | stop r st ↦ uploaded (send_code r) (send_nak strerror r) r st
          ]
  ]

  unfoldable pub after_wrq : Exchange Optreq → List Event → Uploaded
  unfolding send_file
  after_wrq (asking timeout sent peer) es = requesting
  after_wrq (settled ack peer sent) es = send_file ack es
  after_wrq (aborted code packet) es = unsent code packet
  after_wrq (given_up sent) es = timed_out

-- tftp_sendfile behind open_socket(): `st_size` is that of a regular file, and none for another
-- one.
unfoldable pub tftp_sendfile :
    (strerror : ℕ → List ℕ)
    → (send_ok : ℕ → Bool) → (send_errno : List Wire → ℕ) → (errno : ℕ) → (unsafe_peer : Bool)
    → (connects : Sockaddr → Bool) → (maxtimeout rexmtval : ℕ) → (no_options : Bool)
    → (max_blksize max_windowsize : ℕ) → (st_size : Option ℕ) → Stream
    → (name mode : List ℕ) → Peer
    → List Arrival
    → List Event
    → Uploaded
unfolding str_eq asked_for makerequest after_wrq exchange
tftp_sendfile strerror send_ok send_errno errno unsafe_peer connects maxtimeout rexmtval no_options
      max_blksize max_windowsize st_size file name mode peer hs es =
    let convert = str_eq mode (codes "netascii") in
    let req = asked_for no_options max_blksize max_windowsize (if convert then none else st_size) in
    elim (makerequest req name mode) [
      | none ↦ unsent ex_oserr none
      | some stuff ↦
          after_wrq strerror send_errno errno file convert
            (exchange strerror send_ok unsafe_peer connects maxtimeout rexmtval (wrq_reply req) hs (
              exchange_start strerror send_ok unsafe_peer connects maxtimeout rexmtval
                (wrq_reply req) peer))
            es
    ]
