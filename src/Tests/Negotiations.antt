-- ===== src/Tests/Negotiations.antt =====
-- A request of the client on its way to the daemon and back.
use network_tftp_tftp_hpa.Prelude.{ℕ, Bool, ◌≡◌, refl, true, false, none, some, List, ◌∷◌, arith}
use network_tftp_tftp_hpa.Stdio.{Stream}
use network_tftp_tftp_hpa.Text.Codes.{codes}
use network_tftp_tftp_hpa.Text.Decimal.{decimal}
use network_tftp_tftp_hpa.Daemon.{Limits, tsize_read}
use network_tftp_tftp_hpa.Daemon.Table.{startup}
use network_tftp_tftp_hpa.Daemon.Request.{octet, parse_request, request, negotiate_options}
use network_tftp_tftp_hpa.Daemon.Request.Split.{packed}
use network_tftp_tftp_hpa.Client.{Optreq}
use network_tftp_tftp_hpa.Client.Request.{makerequest}
use network_tftp_tftp_hpa.Io.{tftp_io_reader_start, tftp_io_writer_start}
use network_tftp_tftp_hpa.Negotiation.Asked.{
  asked, mode_name, option_strings, makerequest-parse_request,
}
use network_tftp_tftp_hpa.Negotiation.Agreed.{reads, Agree, negotiate_options-parse_oack}
use network_tftp_tftp_hpa.Negotiation.Rejected.{reject_all_options-no_transfer}

abbrev wishes : Optreq
wishes = record {
  has_blksize = true;
  has_window = true;
  has_tsize = true;
  window = 4;
  blksize = 1468;
  tsize = some 0;
}

abbrev limits : Limits
limits = record { max_windowsize = 64; max_windowbytes = 4000; reject_all_options = false }

abbrev stuff : List ℕ
stuff = packed (codes "boot" ∷ mode_name octet ∷ option_strings wishes)

makerequest-parse_request_example :
    parse_request stuff startup ≡ request (codes "boot") octet (asked wishes)
unfolding makerequest decimal
makerequest-parse_request_example =
    makerequest-parse_request wishes (codes "boot") octet (ground arith) (omega arith) refl

negotiate_options-parse_oack_example :
    Agree wishes (negotiate_options 1024 limits (reads wishes tsize_read 77))
negotiate_options-parse_oack_example =
    negotiate_options-parse_oack 1024 limits wishes tsize_read 77 (omega arith) refl (omega arith)
      (omega arith)

abbrev refusing : Limits
refusing = record limits { reject_all_options = true }

reject_all_options-no_transfer_example :
    let (d, oack) = negotiate_options 1024 refusing (reads wishes tsize_read 77) in
    (parse_request stuff startup ≡ request (codes "boot") octet (asked wishes))
    × (oack ≡ none)
    × ((file : Stream) (convert : Bool) (slots : ℕ)
        → (tftp_io_reader_start file convert d.window slots d.segsize ≡ none)
          × (tftp_io_writer_start file convert slots d.segsize ≡ none))
unfolding makerequest decimal
reject_all_options-no_transfer_example =
    reject_all_options-no_transfer 1024 refusing wishes (codes "boot") octet tsize_read 77
      (ground arith) (omega arith) refl refl
