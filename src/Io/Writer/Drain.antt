-- ===== src/Io/Writer/Drain.antt =====
-- tftp_io_write_drain and tftp_io_write_finish hand the published bytes to the file.
use native.Mathlib.Nat.{le_refl}
use network_tftp_tftp_hpa.Prelude.{
  ℕ, zero, suc, ◌-◌, ◌≤◌, ◌<◌, ◌≡◌, ◌≢◌, sym, ap, ◌∙◌, Bool, true, false, List, [], ◌∷◌, ◌++◌,
  append-nil, append_assoc, arith, length-set, get_or, get_or-set_ne, if◌then◌else◌,
}
use network_tftp_tftp_hpa.Stdio.{Stream, output-putc}
use network_tftp_tftp_hpa.Xfer.{ok}
use network_tftp_tftp_hpa.Xfer.Receive.Contract.{WriteLaws}
use network_tftp_tftp_hpa.Io.{Io, empty, writing, io_packet, io_error}
use network_tftp_tftp_hpa.Io.Codec.Decode.{write_bytes}
use network_tftp_tftp_hpa.Io.Codec.Decode.Spec.{
  rendered, held_cr, rendered-append, held_cr-append, Written, write_bytes-Written,
}
use network_tftp_tftp_hpa.Io.Writer.{
  state_of, advance, start_writing, drain_loop, tftp_io_write_drain, tftp_io_write_finish,
  writer_ops,
}
use network_tftp_tftp_hpa.Io.Writer.Publish.{
  IsRing, slot_bytes, waiting, Accepts, reserve-Accepts, publish-Accepts,
}
use network_tftp_tftp_hpa.Io.Writer.Ring.{
  walk, walk-zero, walk-ne, io_next-lt, walk_behind, gather, gather-cons, gather-zero,
}

io_error-ne : (io : Io) (e : ℕ) → (io_error io e).error ≢ 0
unfolding io_error
io_error-ne io e = ground arith

-- The state after the slot at the head was written.
abbrev written_state : Stream → Bool → Io → Io
written_state f cr io = advance (record (start_writing io) { file = f; write_cr = cr })

head-ne :
    (io : Io) → IsRing io → (k : ℕ) → suc k < io.count → io.head ≢ walk io.slots io.head (suc k)
head-ne io r k lt e =
    walk-ne io.slots io.head {j = 0} {k = suc k} r.head_in (omega (arith, r.count_in)) (omega arith)
      (omega (arith, r.count_in)) (walk-zero io.slots io.head ∙ e)

written-IsRing :
    (f : Stream) (cr : Bool) (io : Io) → IsRing io → 0 < io.count → IsRing (written_state f cr io)
written-IsRing f cr io r some_left = record {
  head_in = io_next-lt io.slots io.head r.head_in;
  count_in = omega (arith, r.count_in);
  tail_at =
      r.tail_at
      ∙ ap (walk io.slots io.head) (omega arith)
      ∙ sym (walk_behind io.slots io.head (io.count - 1));
  packets_length = r.packets_length;
  lengths_length = r.lengths_length;
  states_length =
      length-set _ io.head empty ∙ length-set io.states io.head writing ∙ r.states_length;
  published = λ k lt.
      ap (state_of (written_state f cr io)) (walk_behind io.slots io.head k)
      ∙ get_or-set_ne _ _ _ empty empty (head-ne io r k (omega arith))
      ∙ get_or-set_ne io.states _ _ writing empty (head-ne io r k (omega arith))
      ∙ r.published (suc k) (omega arith);
}

-- The bytes at the head are the first that wait.
waiting-written :
    (f : Stream) (cr : Bool) (io : Io)
    → 0 < io.count
    → waiting io ≡ slot_bytes io io.head ++ waiting (written_state f cr io)
waiting-written f cr io some_left =
    ap (gather io.slots (slot_bytes io) io.head) (omega arith)
    ∙ gather-cons io.slots (slot_bytes io) io.head (io.count - 1)

-- One round of the drain loop that succeeds.
written-Accepts :
    (convert : Bool) (got : List ℕ) (io io' : Io)
    → Accepts convert got io
    → 0 < io.count
    → write_bytes (io_packet io io.head).payload (get_or io.lengths io.head 0) (start_writing io)
      ≡ ok tt io'
    → Accepts convert got (advance io')
written-Accepts convert got io io' a some_left h = rw w.frame (record {
  ring = written-IsRing io'.file io'.write_cr io a.ring some_left;
  mode = a.mode;
  flushed = a.flushed ++ slot_bytes io io.head;
  output = cc (
    w.output,
    a.output,
    a.mode,
    a.cr,
    rendered-append convert false a.flushed (slot_bytes io io.head),
  );
  cr =
      cc (w.write_cr, a.mode, a.cr, held_cr-append convert false a.flushed (slot_bytes io io.head));
  split =
      a.split
      ∙ ap (λ l. a.flushed ++ l) (waiting-written io'.file io'.write_cr io some_left)
      ∙ sym (append_assoc a.flushed (slot_bytes io io.head) _);
})
  where
    w :
        Written
          (rendered io.convert io.write_cr (slot_bytes io io.head))
          (held_cr io.convert io.write_cr (slot_bytes io io.head))
          (start_writing io)
          io'
    w = write_bytes-Written _ _ (start_writing io) io' h

count-written :
    (io io' : Io)
    → write_bytes (io_packet io io.head).payload (get_or io.lengths io.head 0) (start_writing io)
      ≡ ok tt io'
    → io'.count ≡ io.count
count-written io io' h =
    ap Io.count (Written.frame (write_bytes-Written _ _ (start_writing io) io' h))

drain_loop-Accepts :
    (convert : Bool) (got : List ℕ) (rounds : ℕ) (io : Io)
    → Accepts convert got io
    → io.count ≤ rounds
    → (drain_loop rounds io).error ≡ 0
    → Accepts convert got (drain_loop rounds io) × ((drain_loop rounds io).count ≡ 0)
unfolding drain_loop
drain_loop-Accepts convert got zero io a le e = (a, omega arith)
drain_loop-Accepts convert got (suc rounds) io a le e = grind (
  arith,
  io_error-ne,
  written-Accepts convert got io,
  count-written io,
  drain_loop-Accepts convert got rounds,
)

-- Everything published has been written.
pub record Drained (convert : Bool) (got : List ℕ) (io : Io) : Type 0 where
  pub accepts : Accepts convert got io
  pub none_left : io.count ≡ 0

pub drain-Drained :
    (convert : Bool) (got : List ℕ) (io io' : Io)
    → Accepts convert got io
    → tftp_io_write_drain io ≡ ok tt io'
    → Accepts convert got io' × Drained convert got io'
unfolding tftp_io_write_drain
drain-Drained convert got io io' a h =
    grind (arith, drain_loop-Accepts convert got io.count io a (le_refl io.count))

-- The text of `got`: in netascii mode its decoding, and a CR that is left over at its end.
unfoldable pub render : (convert : Bool) → List ℕ → List ℕ
render convert got =
    rendered convert false got ++ (if held_cr convert false got then b'\r' ∷ [] else [])

-- With nothing left in the ring, what was flushed is all that was published.
flushed-Drained :
    (convert : Bool) (got : List ℕ) (io : Io) (d : Drained convert got io) → got ≡ d.accepts.flushed
flushed-Drained convert got io d =
    d.accepts.split
    ∙ ap (λ n. d.accepts.flushed ++ gather io.slots (slot_bytes io) io.head n) d.none_left
    ∙ ap (λ l. d.accepts.flushed ++ l) (gather-zero io.slots (slot_bytes io) io.head)
    ∙ append-nil d.accepts.flushed

pub finish-stored :
    (convert : Bool) (got : List ℕ) (io io' : Io)
    → io.file.output ≡ rendered convert false got
    → io.write_cr ≡ held_cr convert false got
    → io.convert ≡ convert
    → tftp_io_write_finish io ≡ ok tt io'
    → io'.file.output ≡ render convert got
unfolding tftp_io_write_finish render held_cr
finish-stored true got io io' o c m h =
    ground (arith, output-putc b'\r' io.file {f' = io'.file}, append-nil (rendered true false got))
finish-stored false got io io' o c m h = ground (arith, append-nil (rendered false false got))

pub finish-Drained :
    (convert : Bool) (got : List ℕ) (io io' : Io)
    → Drained convert got io
    → tftp_io_write_finish io ≡ ok tt io'
    → io'.file.output ≡ render convert got
finish-Drained convert got io io' d h =
    let all = flushed-Drained convert got io d in
    finish-stored convert got io io' (d.accepts.output ∙ ap (rendered convert false) (sym all))
      (d.accepts.cr ∙ ap (held_cr convert false) (sym all)) d.accepts.mode h

-- The writing callbacks of tftp-io.c as the adapter of tftp_xfer_recv.
abbrev pub writer_laws : (convert : Bool) → WriteLaws writer_ops
writer_laws convert = record {
  Accepts = Accepts convert;
  Drained = Drained convert;
  stored = λ io. io.file.output;
  render = render convert;
  reserve = reserve-Accepts convert;
  publish = publish-Accepts convert;
  drain = drain-Drained convert;
  finish = finish-Drained convert;
}
