-- ===== src/Client/Receiving.antt =====
-- tftp_recvfile() of tftp/tftp.c.
use network_tftp_tftp_hpa.Prelude.{ℕ, ◌+◌, ◌-◌, ◌^◌, Bool, false, Option, none, some, List, ◌++◌}
use network_tftp_tftp_hpa.Packet.{Packet}
use network_tftp_tftp_hpa.Packet.Opcode
use network_tftp_tftp_hpa.Stdio.{Stream}
use network_tftp_tftp_hpa.Xfer.{Config, Event, Wire, Result, Status, stop, wait}
use network_tftp_tftp_hpa.Xfer.Receive.{Receiver, tftp_xfer_recv}
use network_tftp_tftp_hpa.Io.{Io, tftp_io_writer_start}
use network_tftp_tftp_hpa.Io.Writer.{writer_ops}
use network_tftp_tftp_hpa.FilePath.{str_eq}
use network_tftp_tftp_hpa.Text.Codes.{codes}
use network_tftp_tftp_hpa.Errors.{protocol, system, be16, make_errpacket}
use network_tftp_tftp_hpa.Client.{Optreq, optreq_init}
use network_tftp_tftp_hpa.Client.Request.{asked_for, makerequest}
use network_tftp_tftp_hpa.Client.Exchange.{
  Sockaddr, Peer, Arrival, Opening, by_oack, by_data, rrq_reply, asking, settled, aborted, given_up,
  Exchange, exchange, exchange_start, ex_oserr, ex_protocol,
}

-- Where the function is: waiting for an answer to its request, left by timer(), returned before the
-- transfer, in the transfer (which timer() may leave as well), or returned behind it. `packet` is
-- that of nak(), if it is called.
pub data Received : Type 0 where
  requesting timed_out : Received
  unreceived : (code : ℕ) → (packet : Option (List ℕ)) → Received
  receiving : Receiver Io → Received
  received : (code : ℕ) → (packet : Option (List ℕ)) → Result → Receiver Io → Received

-- What optack has in the transfer.
abbrev pub options_of_opening : Opening → Optreq
options_of_opening (by_oack ack) = ack
options_of_opening (by_data p) = optreq_init

-- initial_reply: the ACK of the OACK.
abbrev pub reply_of_opening : Opening → Option (List ℕ)
reply_of_opening (by_oack ack) = some (be16 Opcode.ack ++ be16 0)
reply_of_opening (by_data p) = none

abbrev pub packet_of_opening : Opening → Option Packet
packet_of_opening (by_oack ack) = none
packet_of_opening (by_data p) = some p

-- The fields of `xfer`.
abbrev pub client_config : Optreq → (resend_oack : Bool) → Config
client_config ack resend_oack = record {
  blocksize = ack.blksize;
  windowsize = ack.window;
  max_bytes = 2 ^ 64 - 1;
  rollover = 0;
  resend_oack = resend_oack;
}

-- The switch on result.status.
abbrev pub recv_code : Result → ℕ
recv_code r = elim r.status [
  | Status.bad_data ↦ ex_protocol
  | Status.write_error ↦ ex_oserr
  | Status.send_error ↦ ex_oserr
  | Status.recv_error ↦ ex_oserr
  | Status.peer_error ↦ ex_protocol
  | _ ↦ 0
]

abbrev pub recv_packet : (strerror : ℕ → List ℕ) → Result → Option (List ℕ)
recv_packet strerror r = elim r.status [
  | Status.bad_data ↦
      some (make_errpacket strerror (protocol 4) (some (codes "Data packet too large")))
  | Status.write_error ↦ some (make_errpacket strerror (system r.error) none)
  | _ ↦ none
]

-- `send_errno` is about the packets of the transfer.
module _ (strerror : ℕ → List ℕ) (send_errno : List Wire → ℕ) (file : Stream) (convert : Bool) where
  -- From the call of tftp_io_writer_start on; EINVAL is 22. A byte more than the block and its
  -- header is received.
  unfoldable pub receive_file : Opening → List Event → Received
  unfolding make_errpacket
  receive_file o es =
      let ack = options_of_opening o in
      elim (tftp_io_writer_start file convert ack.window ack.blksize) [
        | none ↦ unreceived ex_oserr (some (make_errpacket strerror (system 22) none))
        | some io ↦
            elim (tftp_xfer_recv writer_ops (client_config ack false) send_errno (ack.blksize + 5)
              (reply_of_opening o) (packet_of_opening o) io es) [
                | wait st ↦ receiving st
                | stop r st ↦ received (recv_code r) (recv_packet strerror r) r st
              ]
      ]

  unfoldable pub after_request : Exchange Opening → List Event → Received
  unfolding receive_file
  after_request (asking timeout sent peer) es = requesting
  after_request (settled o peer sent) es = receive_file o es
  after_request (aborted code packet) es = unreceived code packet
  after_request (given_up sent) es = timed_out

-- tftp_recvfile behind open_socket(): `hs` comes during the exchange and `es` in the transfer. The
-- size that is asked for is 0.
unfoldable pub tftp_recvfile :
    (strerror : ℕ → List ℕ)
    → (send_ok : ℕ → Bool) → (send_errno : List Wire → ℕ) → (unsafe_peer : Bool)
    → (connects : Sockaddr → Bool) → (maxtimeout rexmtval : ℕ) → (no_options : Bool)
    → (max_blksize max_windowsize : ℕ) → Stream
    → (name mode : List ℕ) → Peer
    → List Arrival
    → List Event
    → Received
unfolding str_eq asked_for makerequest after_request exchange
tftp_recvfile strerror send_ok send_errno unsafe_peer connects maxtimeout rexmtval no_options
      max_blksize max_windowsize file name mode peer hs es =
    let convert = str_eq mode (codes "netascii") in
    let req = asked_for no_options max_blksize max_windowsize (some 0) in
    elim (makerequest req name mode) [
      | none ↦ unreceived ex_oserr none
      | some stuff ↦
          after_request strerror send_errno file convert
            (exchange strerror send_ok unsafe_peer connects maxtimeout rexmtval (rrq_reply req) hs (
              exchange_start strerror send_ok unsafe_peer connects maxtimeout rexmtval
                (rrq_reply req) peer))
            es
    ]
