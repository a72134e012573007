-- ===== src/Tests/Transfers.antt =====
-- A netascii upload of two packets, with a duplicate and a timeout in between.
use network_tftp_tftp_hpa.Prelude.{
  ℕ, ◌≤◌, ◌≡◌, refl, true, false, none, some, List, [], ◌∷◌, length, arith,
}
use network_tftp_tftp_hpa.Packet.{Packet}
use network_tftp_tftp_hpa.Packet.Opcode
use network_tftp_tftp_hpa.Stdio.{Stream, putc}
use network_tftp_tftp_hpa.Xfer.{Config, Event, timeout, datagram, Wire}
use network_tftp_tftp_hpa.Xfer.Receive.{tftp_xfer_recv}
use network_tftp_tftp_hpa.Xfer.Receive.Contract.{payloads, last_block, transferred, Ended}
use network_tftp_tftp_hpa.Io.{Io, blank, empty, io_next, io_error, io_start, tftp_io_writer_start}
use network_tftp_tftp_hpa.Io.Codec.Decode.{write_bytes}
use network_tftp_tftp_hpa.Io.Writer.{
  tftp_io_writer_reserve, tftp_io_write_publish, tftp_io_write_drain, tftp_io_write_finish,
}
use network_tftp_tftp_hpa.Io.Writer.Drain.{render}
use network_tftp_tftp_hpa.Upload.{upload_sound}

abbrev no_errors : List Wire → ℕ
no_errors _ = 0

abbrev data_packet : ℕ → List ℕ → Packet
data_packet n d = record { opcode = Opcode.block_data; block = n; payload = d }

abbrev target : Stream
target = record { input = []; read_error = false; output = []; room = 100; flush_errno = 0 }

abbrev config : Config
config = record {
  blocksize = 2;
  windowsize = 1;
  max_bytes = 100;
  rollover = 0;
  resend_oack = false;
}

-- "A" CR, then LF "B" cut short: the CR and the LF stand in different packets.
abbrev trace : List Event
trace =
    datagram (data_packet 1 (65 ∷ 13 ∷ []))
    ∷ timeout
    ∷ datagram (data_packet 1 (65 ∷ 13 ∷ []))
    ∷ datagram (data_packet 2 (10 ∷ []))
    ∷ []

-- What tftp_io_writer_start gives for two slots.
abbrev opened : Io
opened = record {
  file = target;
  convert = true;
  packets = blank ∷ blank ∷ [];
  lengths = 0 ∷ 0 ∷ [];
  states = empty ∷ empty ∷ [];
  slots = 2;
  window = 0;
  blocksize = 2;
  head = 0;
  tail = 0;
  count = 0;
  held = 0;
  error = 0;
  eof = false;
  newline = false;
  prevchar = none;
  write_cr = false;
}

upload_sound_example :
    let ps = transferred config none trace in
    (◌≡◌ {A = List ℕ} (65 ∷ 10 ∷ []) (render true (payloads ps)))
    × (◌≡◌ {A = ℕ} 3 (length (payloads ps)))
    × (3 ≤ 100)
    × (◌≡◌ {A = ℕ} 2 (last_block 0 ps))
    × (some (Wire.ack 2) ≡ some (Wire.ack (last_block 0 ps)))
    × Ended 2 ps
unfolding tftp_xfer_recv tftp_io_writer_start io_start tftp_io_writer_reserve tftp_io_write_publish
    tftp_io_write_drain tftp_io_write_finish write_bytes io_next io_error putc
upload_sound_example =
    upload_sound target true 2 config no_errors 6 none none trace opened (omega arith) refl refl
      refl refl
