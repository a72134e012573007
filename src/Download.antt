-- ===== src/Download.antt =====
-- A server's or a client's sending transfer: tftp_xfer_send of common/tftp-xfer.c over the reading
-- adapter of common/tftp-io.c.
use network_tftp_tftp_hpa.Prelude.{
  ℕ, zero, suc, ◌≤◌, ◌<◌, ◌≡◌, refl, sym, ap, subst, ◌∙◌, inl, inr, Bool, false, none, some, List,
  [], ◌∷◌, length, length-replicate, length-take, length-drop, take, drop, replicate, arith, ◌==◌,
  Bool-cases, if◌then◌else◌,
}
use network_tftp_tftp_hpa.Stdio.{Stream}
use network_tftp_tftp_hpa.Xfer.{finished, Config, Event, Wire, stop, u64, Result}
use network_tftp_tftp_hpa.Xfer.Send.{Sender, tftp_xfer_send}
use network_tftp_tftp_hpa.Xfer.Send.Contract.{numbered, wires, total, Within}
use network_tftp_tftp_hpa.Xfer.Send.Sound.{tftp_xfer_send_sound}
use network_tftp_tftp_hpa.Io.{Io, io_start, tftp_io_reader_start, blank}
use network_tftp_tftp_hpa.Io.Codec.Encode.Spec.{encode}
use network_tftp_tftp_hpa.Io.Reader.{reader_ops}
use network_tftp_tftp_hpa.Io.Reader.Window.{IsCut, Filled}
use network_tftp_tftp_hpa.Io.Reader.Laws.{reader_laws}
use network_tftp_tftp_hpa.Io.Reader.Places.{Holds-nil}
use network_tftp_tftp_hpa.Io.Writer.Ring.{walk-zero}

-- The text that a file has on the wire.
abbrev pub wire_text : (convert : Bool) → List ℕ → List ℕ
wire_text convert bytes = if convert then encode bytes else bytes

-- A text in blocks: all are full but the last one.
unfoldable pub blocks_of : (fuel blocksize : ℕ) → List ℕ → List (List ℕ)
blocks_of zero blocksize text = text ∷ []
blocks_of (suc fuel) blocksize text =
    let rest = blocks_of fuel blocksize (drop blocksize text) in
    take blocksize text ∷ (if length (take blocksize text) == blocksize then rest else [])

-- The DATA packets of a file as they are handed to send(). Each block takes a byte of the text but
-- the last one.
abbrev pub file_packets : (rollover blocksize : ℕ) → List ℕ → List Wire
file_packets rollover blocksize text =
    wires (numbered rollover 1 (blocks_of (length text) blocksize text))

pub take_short : (n : ℕ) (xs : List ℕ) → length xs ≤ n → take n xs ≡ xs
take_short zero [] h = refl
take_short (suc n) [] h = refl
take_short zero (x ∷ xs) h = absurd (ground arith)
take_short (suc n) (x ∷ xs) h = ap (λ l. x ∷ l) (take_short n xs (omega arith))

-- As many rounds as the text has bytes are enough.
pub blocks_of-IsCut :
    (fuel blocksize : ℕ) (text : List ℕ)
    → 0 < blocksize
    → length text ≤ fuel
    → IsCut blocksize text (blocks_of fuel blocksize text)
unfolding blocks_of
blocks_of-IsCut zero blocksize text some_size h =
    (sym (take_short blocksize text (omega arith)), inl (omega arith, refl))
blocks_of-IsCut (suc fuel) blocksize text some_size h =
    let n = length-take blocksize text in
    let m = length-drop blocksize text in
    elim (Bool-cases (length (take blocksize text) == blocksize)) [
      | inl full ↦ rw full (
        refl,
        inr (
          ground (arith, full),
          blocks_of-IsCut fuel blocksize (drop blocksize text) some_size (omega arith),
        ),
      )
      | inr short ↦ rw short (refl, inl (ground (arith, short), refl))
    ]

-- A cut loses and adds nothing.
total-IsCut :
    (blocksize : ℕ) (text : List ℕ) (ds : List (List ℕ))
    → IsCut blocksize text ds
    → total ds ≡ length text
total-IsCut blocksize text [] h = elim h [ ]
total-IsCut blocksize text (d ∷ ds) (e, inl (short, last)) =
    let n = length-take blocksize text in
    let d' = ap length e in let none_left : total ds ≡ 0 = ap total last in omega arith
total-IsCut blocksize text (d ∷ ds) (e, inr (full, cut)) =
    let n = length-take blocksize text in
    let m = length-drop blocksize text in
    let d' = ap length e in
    let rest = total-IsCut blocksize (drop blocksize text) ds cut in omega arith

pub started-Filled :
    (file : Stream) (convert : Bool) (window slots blocksize : ℕ) (io : Io)
    → tftp_io_reader_start file convert window slots blocksize ≡ some io
    → Filled []
        (blocks_of (length (wire_text convert file.input)) blocksize (wire_text convert file.input))
        io
      × (0 < blocksize)
unfolding tftp_io_reader_start io_start
started-Filled file convert window slots blocksize io e =
    let text = wire_text convert file.input in
    let some_size : 0 < blocksize = ground arith in
    let some_slot : 0 < slots = ground arith in
    let wide : window ≤ slots = ground arith in
    let fresh : Io = record {
      file = file;
      convert = convert;
      packets = replicate slots blank;
      lengths = replicate slots 0;
      states = [];
      slots = slots;
      window = window;
      blocksize = blocksize;
      head = 0;
      tail = 0;
      count = 0;
      held = 0;
      error = 0;
      eof = false;
      newline = false;
      prevchar = none;
      write_cr = false;
    } in
    let same : fresh ≡ io = ground arith in
    (
      subst (Filled [] (blocks_of (length text) blocksize text)) same (record {
        packets_sized = length-replicate slots blank;
        lengths_sized = length-replicate slots 0;
        wide = wide;
        placed = some_slot;
        counted = refl;
        bounded = omega arith;
        behind = sym (walk-zero slots 0);
        clean = refl;
        filled = Holds-nil slots (replicate slots blank) (replicate slots 0) 0;
        source = inr (refl, blocks_of-IsCut (length text) blocksize text some_size (omega arith));
      }),
      some_size,
    )

-- A sending transfer of a file of which less than 2^64 bytes go over the wire, on a reader with a
-- ring of any size, in octet or netascii mode: whatever comes over the network, if tftp_xfer_send
-- returns TFTP_XFER_OK, then the result counts the bytes of the file's text, every DATA packet of
-- the text was sent, with its number and its length, the short last one included, and nothing else
-- was sent.
pub download_sound :
    (file : Stream) (convert : Bool) (window slots : ℕ) (cfg : Config) (send_errno : List Wire → ℕ)
    (errno : ℕ) (es : List Event) (io : Io) {r : Result} {st : Sender Io}
    → length (wire_text convert file.input) < u64
    → tftp_io_reader_start file convert window slots cfg.blocksize ≡ some io
    → tftp_xfer_send reader_ops cfg send_errno errno io es ≡ stop r st
    → r.status ≡ finished
    → let text = wire_text convert file.input in
      let packets = file_packets cfg.rollover cfg.blocksize text in
      (r.bytes ≡ length text) × Within packets st.sent × Within st.sent packets
download_sound file convert window slots cfg send_errno errno es io fits start run done =
    let text = wire_text convert file.input in
    let ds = blocks_of (length text) cfg.blocksize text in
    let begun = started-Filled file convert window slots cfg.blocksize io start in
    let cut = blocks_of-IsCut (length text) cfg.blocksize text begun.1 (omega arith) in
    let size = total-IsCut cfg.blocksize text ds cut in
    let sent =
      tftp_xfer_send_sound reader_ops reader_laws cfg send_errno ds (omega arith) errno io es
        begun.0 run done in
    (sent.count ∙ size, sent.complete, sent.genuine)
