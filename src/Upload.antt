-- ===== src/Upload.antt =====
-- A server's or a client's receiving transfer: tftp_xfer_recv of common/tftp-xfer.c over the
-- writing adapter of common/tftp-io.c.
use network_tftp_tftp_hpa.Prelude.{
  ℕ, ◌≤◌, ◌<◌, ◌≡◌, refl, Bool, false, Option, none, some, List, [], length, get_elem?, replicate,
  length-replicate, sym, ◌∙◌, arith,
}
use network_tftp_tftp_hpa.Packet.{Packet}
use network_tftp_tftp_hpa.Stdio.{Stream}
use network_tftp_tftp_hpa.Xfer.{finished, Config, Event, Wire, stop, u64, Result}
use network_tftp_tftp_hpa.Xfer.Receive.{Receiver, tftp_xfer_recv}
use network_tftp_tftp_hpa.Xfer.Receive.Contract.{payloads, last_block, transferred, Ended}
use network_tftp_tftp_hpa.Xfer.Receive.Sound.{tftp_xfer_recv_sound}
use network_tftp_tftp_hpa.Io.{Io, empty, blank, io_start, tftp_io_writer_start}
use network_tftp_tftp_hpa.Io.Codec.Decode.Spec.{rendered, held_cr, decode, open_cr}
use network_tftp_tftp_hpa.Io.Writer.{writer_ops}
use network_tftp_tftp_hpa.Io.Writer.Ring.{walk-zero, gather-zero}
use network_tftp_tftp_hpa.Io.Writer.Publish.{Accepts}
use network_tftp_tftp_hpa.Io.Writer.Drain.{render, writer_laws}

-- What tftp_io_writer_start allocates.
abbrev pub fresh : Stream → Bool → ℕ → ℕ → Io
fresh file convert slots blocksize = record {
  file = file;
  convert = convert;
  packets = replicate slots blank;
  lengths = replicate slots 0;
  states = replicate slots empty;
  slots = slots;
  window = 0;
  blocksize = blocksize;
  head = 0;
  tail = 0;
  count = 0;
  held = 0;
  error = 0;
  eof = false;
  newline = false;
  prevchar = none;
  write_cr = false;
}

fresh-Accepts :
    (file : Stream) (convert : Bool) (slots blocksize : ℕ)
    → file.output ≡ []
    → 0 < slots
    → Accepts convert [] (fresh file convert slots blocksize)
unfolding rendered held_cr decode open_cr
fresh-Accepts file convert slots blocksize e some_slot = record {
  ring = record {
    head_in = some_slot;
    count_in = omega arith;
    tail_at = sym (walk-zero slots 0);
    packets_length = length-replicate slots blank;
    lengths_length = length-replicate slots 0;
    states_length = length-replicate slots empty;
    published = λ k lt. absurd (omega arith);
  };
  mode = refl;
  flushed = [];
  output = e ∙ ground arith;
  cr = ground arith;
  split = sym (gather-zero slots _ 0);
}

start-Accepts :
    (file : Stream) (convert : Bool) (slots blocksize : ℕ) (io : Io)
    → file.output ≡ []
    → tftp_io_writer_start file convert slots blocksize ≡ some io
    → Accepts convert [] io
unfolding tftp_io_writer_start io_start
start-Accepts file convert slots blocksize io e h =
    ground (arith, fresh-Accepts file convert slots blocksize e)

-- A receiving transfer into an empty file, on a writer with any number of slots, in octet or
-- netascii mode: if tftp_xfer_recv returns TFTP_XFER_OK, the file holds the text of exactly the
-- awaited packets of the trace, in order, whatever else arrived; the result counts their data
-- bytes, at most max_bytes; the result's last block and the last ACK sent are those of the last of
-- them, the only one that is not full.
pub upload_sound :
    (file : Stream) (convert : Bool) (slots : ℕ) (cfg : Config) (send_errno : List Wire → ℕ)
    (input_size : ℕ) (first_reply : Option (List ℕ)) (first_packet : Option Packet)
    (es : List Event) (io : Io) {r : Result} {st : Receiver Io}
    → cfg.max_bytes < u64
    → file.output ≡ []
    → tftp_io_writer_start file convert slots cfg.blocksize ≡ some io
    → tftp_xfer_recv writer_ops cfg send_errno input_size first_reply first_packet io es ≡ stop r st
    → r.status ≡ finished
    → let ps = transferred cfg first_packet es in
      (st.io.file.output ≡ render convert (payloads ps))
      × (r.bytes ≡ length (payloads ps))
      × (r.bytes ≤ cfg.max_bytes)
      × (r.last_block ≡ last_block 0 ps)
      × (get_elem? st.sent 0 ≡ some (Wire.ack (last_block 0 ps)))
      × Ended cfg.blocksize ps
upload_sound file convert slots cfg send_errno input_size first_reply first_packet es io fits e h =
    tftp_xfer_recv_sound writer_ops (writer_laws convert) cfg send_errno fits input_size first_reply
      first_packet io es (start-Accepts file convert slots cfg.blocksize io e h)
