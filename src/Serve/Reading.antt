-- ===== src/Serve/Reading.antt =====
-- tftp_sendfile() of tftpd/tftpd.c: a read request.
use network_tftp_tftp_hpa.Prelude.{ℕ, ◌-◌, ◌^◌, Bool, Option, none, some, List}
use network_tftp_tftp_hpa.Stdio.{Stream}
use network_tftp_tftp_hpa.Xfer.{Event, Wire, Result, Status, stop, wait}
use network_tftp_tftp_hpa.Xfer.Send.{Sender, tftp_xfer_send}
use network_tftp_tftp_hpa.Io.{Io, tftp_io_reader_start}
use network_tftp_tftp_hpa.Io.Reader.{reader_ops}
use network_tftp_tftp_hpa.Daemon.{Daemon}
use network_tftp_tftp_hpa.Errors.{system}
use network_tftp_tftp_hpa.Serve.{Heard, nak, xfer_config}
use network_tftp_tftp_hpa.Serve.Exchange.{
  Exchange, waiting, accepted, abandoned, exited, exchange, exchange_start,
}

-- Where the function is: in the exchange of the OACK, left or exited there, left because the
-- adapter does not start, in the transfer, or left with a result. The last packet of each is that of
-- nak(), if it is called.
pub data Read : Type 0 where
  exchanging dropped gone : Read
  refused : (packet : List ℕ) → Read
  transferring : Sender Io → Read
  ended : Result → Sender Io → (packet : Option (List ℕ)) → Read

-- The switch on result.status, less the log.
abbrev pub nak_of_read : (strerror : ℕ → List ℕ) → Result → Option (List ℕ)
nak_of_read strerror r = elim r.status [
  | Status.read_error ↦ some (nak strerror (system r.error))
  | _ ↦ none
]

-- `slots` is what io_ring_slots() gives, `send_ok` is about the OACK and `send_errno` about the
-- packets of the transfer; `errno` is errno as the transfer begins.
module _ (strerror : ℕ → List ℕ) (send_ok : ℕ → Bool) (send_errno : List Wire → ℕ) (errno slots : ℕ)
    (file : Stream) (convert : Bool) (d : Daemon) where
  -- From the call of tftp_io_reader_start on; EINVAL is 22.
  unfoldable pub read_transfer : List Event → Read
  unfolding nak
  read_transfer es = elim (tftp_io_reader_start file convert d.window slots d.segsize) [
    | none ↦ refused (nak strerror (system 22))
    | some io ↦
        elim (tftp_xfer_send reader_ops (xfer_config d (2 ^ 64 - 1)) send_errno errno io es) [
          | wait st ↦ transferring st
          | stop r st ↦ ended r st (nak_of_read strerror r)
        ]
  ]

  -- Where the exchange leads.
  unfoldable pub after_exchange : Exchange → List Event → Read
  unfolding read_transfer
  after_exchange (waiting timeout sent) es = exchanging
  after_exchange (accepted sent) es = read_transfer es
  after_exchange (abandoned sent) es = dropped
  after_exchange (exited sent) es = gone

  -- tftp_sendfile: `hs` is what comes during the exchange, `es` what comes in the transfer.
  unfoldable pub tftp_sendfile : (oack : Option (List ℕ)) → List Heard → List Event → Read
  unfolding read_transfer exchange after_exchange
  tftp_sendfile none hs es = read_transfer es
  tftp_sendfile (some oack) hs es =
      after_exchange (exchange send_ok d hs (exchange_start send_ok d)) es
