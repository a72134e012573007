-- ===== src/Tests/Downloads.antt =====
-- A netascii file of two packets on its way from a sender to a receiver, with a lost and a repeated
-- packet.
use network_tftp_tftp_hpa.Prelude.{ℕ, ◌≡◌, refl, true, false, none, List, [], ◌∷◌, arith, inl, inr}
use network_tftp_tftp_hpa.Packet.{Packet}
use network_tftp_tftp_hpa.Packet.Opcode
use network_tftp_tftp_hpa.Stdio.{Stream, putc}
use network_tftp_tftp_hpa.Xfer.{Config, Event, timeout, datagram, Wire}
use network_tftp_tftp_hpa.Xfer.Send.{tftp_xfer_send}
use network_tftp_tftp_hpa.Xfer.Send.Contract.{Within}
use network_tftp_tftp_hpa.Xfer.Receive.{tftp_xfer_recv}
use network_tftp_tftp_hpa.Io.{
  Io, blank, empty, io_next, io_error, io_start, tftp_io_reader_start, tftp_io_writer_start,
}
use network_tftp_tftp_hpa.Io.Codec.Encode.{read_bytes}
use network_tftp_tftp_hpa.Io.Codec.Encode.Spec.{encode}
use network_tftp_tftp_hpa.Io.Codec.Decode.{write_bytes}
use network_tftp_tftp_hpa.Io.Reader.{
  tftp_io_read_window, tftp_io_read_packet, tftp_io_read_length, tftp_io_read_release, store_header,
}
use network_tftp_tftp_hpa.Io.Writer.{
  tftp_io_writer_reserve, tftp_io_write_publish, tftp_io_write_drain, tftp_io_write_finish,
}
use network_tftp_tftp_hpa.Download.{blocks_of, file_packets, download_sound}
use network_tftp_tftp_hpa.Transfer.{transfer_exact}

abbrev no_errors : List Wire → ℕ
no_errors _ = 0

abbrev data_packet : ℕ → List ℕ → Packet
data_packet n d = record { opcode = Opcode.block_data; block = n; payload = d }

abbrev ack_packet : ℕ → Packet
ack_packet n = record { opcode = Opcode.ack; block = n; payload = [] }

abbrev source : Stream
source = record { input = 65 ∷ 10 ∷ []; read_error = false; output = []; room = 0; flush_errno = 0 }

abbrev target : Stream
target = record { input = []; read_error = false; output = []; room = 100; flush_errno = 0 }

abbrev config : Config
config = record {
  blocksize = 2;
  windowsize = 1;
  max_bytes = 100;
  rollover = 0;
  resend_oack = false;
}

-- The first ACK 1 is lost, and ACK 1 comes twice later.
abbrev acks_trace : List Event
acks_trace =
    timeout ∷ datagram (ack_packet 1) ∷ datagram (ack_packet 1) ∷ datagram (ack_packet 2) ∷ []

abbrev data_trace : List Event
data_trace =
    datagram (data_packet 1 (65 ∷ 13 ∷ []))
    ∷ datagram (data_packet 1 (65 ∷ 13 ∷ []))
    ∷ timeout
    ∷ datagram (data_packet 2 (10 ∷ []))
    ∷ []

abbrev reader : Io
reader = record {
  file = source;
  convert = true;
  packets = blank ∷ blank ∷ [];
  lengths = 0 ∷ 0 ∷ [];
  states = [];
  slots = 2;
  window = 1;
  blocksize = 2;
  head = 0;
  tail = 0;
  count = 0;
  held = 0;
  error = 0;
  eof = false;
  newline = false;
  prevchar = none;
  write_cr = false;
}

abbrev writer : Io
writer = record reader { file = target; states = empty ∷ empty ∷ []; window = 0 }

abbrev sent_log : List Wire
sent_log =
    Wire.block (data_packet 2 (10 ∷ [])) 5
    ∷ Wire.block (data_packet 1 (65 ∷ 13 ∷ [])) 6
    ∷ Wire.block (data_packet 1 (65 ∷ 13 ∷ [])) 6
    ∷ []

download_sound_example :
    let packets = file_packets 0 2 (65 ∷ 13 ∷ 10 ∷ []) in
    (◌≡◌ {A = ℕ} 3 3) × Within packets sent_log × Within sent_log packets
unfolding tftp_xfer_send tftp_io_reader_start io_start tftp_io_read_window tftp_io_read_packet
    tftp_io_read_length tftp_io_read_release store_header read_bytes io_next io_error encode
download_sound_example =
    download_sound source true 1 2 config no_errors 0 acks_trace reader (omega arith) refl refl refl

transfer_exact_example : (◌≡◌ {A = List ℕ} (65 ∷ 10 ∷ []) (65 ∷ 10 ∷ [])) × (◌≡◌ {A = ℕ} 3 3)
unfolding tftp_xfer_send tftp_io_reader_start io_start tftp_io_read_window tftp_io_read_packet
    tftp_io_read_length tftp_io_read_release store_header read_bytes io_next io_error encode
    blocks_of tftp_xfer_recv tftp_io_writer_start tftp_io_writer_reserve tftp_io_write_publish
    tftp_io_write_drain tftp_io_write_finish write_bytes putc
transfer_exact_example =
    transfer_exact source target true 1 2 2 config config no_errors no_errors 0 6 none acks_trace
      data_trace reader writer refl (omega arith) (omega arith) (omega arith) refl refl refl refl
      refl refl refl (λ _. inr (inl refl), (λ _. inr (inl refl), (tt, (λ _. inl refl, tt))))
