-- ===== src/Tests/Sessions.antt =====
-- A netascii file on its way from the daemon to the client, with a block size of 8.
use network_tftp_tftp_hpa.Prelude.{ℕ, ◌≡◌, refl, Bool, true, false, none, List, [], ◌∷◌, arith, inl}
use network_tftp_tftp_hpa.Packet.{Packet}
use network_tftp_tftp_hpa.Packet.Opcode
use network_tftp_tftp_hpa.Stdio.{Stream, putc}
use network_tftp_tftp_hpa.Text.Codes.{codes}
use network_tftp_tftp_hpa.Text.Decimal.{decimal}
use network_tftp_tftp_hpa.Xfer.{timeout, datagram, Wire}
use network_tftp_tftp_hpa.Xfer.Send.{tftp_xfer_send}
use network_tftp_tftp_hpa.Xfer.Receive.{tftp_xfer_recv}
use network_tftp_tftp_hpa.Io.{
  io_next, io_error, io_start, tftp_io_reader_start, tftp_io_writer_start,
}
use network_tftp_tftp_hpa.Io.Codec.Encode.{read_bytes}
use network_tftp_tftp_hpa.Io.Codec.Encode.Spec.{encode}
use network_tftp_tftp_hpa.Io.Codec.Decode.{write_bytes}
use network_tftp_tftp_hpa.Io.Reader.{
  tftp_io_read_window, tftp_io_read_packet, tftp_io_read_length, tftp_io_read_release, store_header,
}
use network_tftp_tftp_hpa.Io.Writer.{
  tftp_io_writer_reserve, tftp_io_write_publish, tftp_io_write_drain, tftp_io_write_finish,
}
use network_tftp_tftp_hpa.Download.{blocks_of}
use network_tftp_tftp_hpa.Daemon.{Daemon, Limits, tsize_nak}
use network_tftp_tftp_hpa.Daemon.Request.{negotiate_options}
use network_tftp_tftp_hpa.Daemon.Request.Split.{packed}
use network_tftp_tftp_hpa.Client.{Optreq}
use network_tftp_tftp_hpa.Client.Exchange.{rrq_reply}
use network_tftp_tftp_hpa.Client.Receiving.{receive_file}
use network_tftp_tftp_hpa.Negotiation.Agreed.{reads}
use network_tftp_tftp_hpa.Serve.{arrived}
use network_tftp_tftp_hpa.Serve.Reading.{tftp_sendfile}
use network_tftp_tftp_hpa.Session.{get_exact}

abbrev wishes : Optreq
wishes = record {
  has_blksize = true;
  has_window = false;
  has_tsize = false;
  window = 1;
  blksize = 8;
  tsize = none;
}

abbrev limits : Limits
limits = record { max_windowsize = 64; max_windowbytes = 4000; reject_all_options = false }

-- The answer of the daemon.
abbrev granted : List ℕ
granted = packed (codes "blksize" ∷ codes "8" ∷ [])

abbrev understood : Optreq
understood = wishes

abbrev all_sent : ℕ → Bool
all_sent n = true

abbrev no_text : ℕ → List ℕ
no_text e = []

abbrev no_errors : List Wire → ℕ
no_errors log = 0

abbrev source : Stream
source = record { input = 65 ∷ 10 ∷ []; read_error = false; output = []; room = 0; flush_errno = 0 }

abbrev target : Stream
target = record { input = []; read_error = false; output = []; room = 100; flush_errno = 0 }

abbrev text_packet : Packet
text_packet = record { opcode = Opcode.block_data; block = 1; payload = 65 ∷ 13 ∷ 10 ∷ [] }

abbrev ack_packet : Packet
ack_packet = record { opcode = Opcode.ack; block = 1; payload = [] }

abbrev negotiated : Daemon
negotiated = (negotiate_options 1468 limits (reads wishes tsize_nak 0)).0

get_exact_example : (◌≡◌ {A = List ℕ} (65 ∷ 10 ∷ []) (65 ∷ 10 ∷ [])) × (◌≡◌ {A = ℕ} 3 3)
unfolding negotiate_options decimal rrq_reply tftp_sendfile receive_file tftp_xfer_send
    tftp_io_reader_start io_start tftp_io_read_window tftp_io_read_packet tftp_io_read_length
    tftp_io_read_release store_header read_bytes io_next io_error encode blocks_of tftp_xfer_recv
    tftp_io_writer_start tftp_io_writer_reserve tftp_io_write_publish tftp_io_write_drain
    tftp_io_write_finish write_bytes putc
get_exact_example =
    get_exact 1468 limits wishes tsize_nak 0 negotiated granted understood no_text no_text all_sent
      no_errors no_errors 0 2 source target true (arrived 4 Opcode.ack 0 ∷ [])
      (timeout ∷ datagram ack_packet ∷ []) (datagram text_packet ∷ []) (omega arith) refl
      (omega arith) (omega arith) refl refl (omega arith) (omega arith) refl refl refl refl refl
      ((λ _. inl refl), tt)
