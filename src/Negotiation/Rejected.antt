-- ===== src/Negotiation/Rejected.antt =====
-- The option --refuse of the daemon without an argument: every option is rejected.
use network_tftp_tftp_hpa.Prelude.{ℕ, ◌≡◌, refl, Bool, true, none, some, List, arith}
use network_tftp_tftp_hpa.Stdio.{Stream}
use network_tftp_tftp_hpa.Daemon.{Limits, TsizeMode}
use network_tftp_tftp_hpa.Daemon.Table.{startup}
use network_tftp_tftp_hpa.Daemon.Request.{Mode, parse_request, request, negotiate_options}
use network_tftp_tftp_hpa.Daemon.Request.Split.{IsPlain}
use network_tftp_tftp_hpa.Client.{Optreq}
use network_tftp_tftp_hpa.Client.Request.{makerequest}
use network_tftp_tftp_hpa.Io.{io_start, tftp_io_reader_start, tftp_io_writer_start}
use network_tftp_tftp_hpa.Negotiation.Asked.{asked, Fits, mode_name, makerequest-parse_request}
use network_tftp_tftp_hpa.Negotiation.Agreed.{reads}

no_block_size :
    (file : Stream) (convert : Bool) (window slots : ℕ)
    → (tftp_io_reader_start file convert window slots 0 ≡ none)
      × (tftp_io_writer_start file convert slots 0 ≡ none)
unfolding tftp_io_reader_start tftp_io_writer_start io_start
no_block_size file convert window slots = (ground arith, ground arith)

-- If the daemon rejects all options, then it reads a request of the client, answers without an
-- OACK, and keeps the block size 0 of its start, with which neither adapter starts, whatever the
-- file, the conversion and the number of slots. The name must have a byte and no NUL, the numbers
-- of the request must fit into 64 bits, and the request must fit into a packet.
pub reject_all_options-no_transfer :
    (max_blksize : ℕ) (limits : Limits) (req : Optreq) (name : List ℕ) (m : Mode) (mode : TsizeMode)
    (size : ℕ) {stuff : List ℕ}
    → IsPlain name
    → Fits req
    → limits.reject_all_options ≡ true
    → makerequest req name (mode_name m) ≡ some stuff
    → let (d, oack) = negotiate_options max_blksize limits (reads req mode size) in
      (parse_request stuff startup ≡ request name m (asked req))
      × (oack ≡ none)
      × ((file : Stream) (convert : Bool) (slots : ℕ)
          → (tftp_io_reader_start file convert d.window slots d.segsize ≡ none)
            × (tftp_io_writer_start file convert slots d.segsize ≡ none))
unfolding negotiate_options
reject_all_options-no_transfer max_blksize limits req name m mode size plain fits r e = rw r (
  makerequest-parse_request req name m plain fits e,
  refl,
  λ file convert slots. no_block_size file convert 0 slots,
)
