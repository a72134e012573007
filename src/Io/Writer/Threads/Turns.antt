-- ===== src/Io/Writer/Threads/Turns.antt =====
-- What a turn of writer_thread keeps.
use network_tftp_tftp_hpa.Prelude.{
  ℕ, ◌-◌, ◌<◌, ◌≡◌, ◌≢◌, ◌⊎◌, inl, inr, refl, sym, ap, ◌∙◌, Bool, true, false, not, ◌||◌, List, [],
  ◌∷◌, ◌++◌, append-nil, append_assoc, arith, get_or, take, ◌==◌, Bool-cases,
}
use network_tftp_tftp_hpa.Xfer.{ok, fail}
use network_tftp_tftp_hpa.Io.{Io, ready, writing, io_packet, io_error}
use network_tftp_tftp_hpa.Io.Codec.Decode.{netascii_write, octet_write, write_bytes}
use network_tftp_tftp_hpa.Xfer.Send.Window.{Answer-cases}
use network_tftp_tftp_hpa.Io.Codec.Decode.Spec.{
  rendered, held_cr, rendered-append, held_cr-append, Written, write_bytes-Written,
}
use network_tftp_tftp_hpa.Io.Writer.{state_of, is_ready, advance, start_writing}
use network_tftp_tftp_hpa.Io.Writer.Ring.{gather, gather-cons}
use network_tftp_tftp_hpa.Io.Writer.Publish.{slot_bytes, waiting}
use network_tftp_tftp_hpa.Io.Writer.Threads.{Writer, Caller, wrote, failed, ended, writer_turn}
use network_tftp_tftp_hpa.Io.Writer.Threads.Held.{Held}
use network_tftp_tftp_hpa.Io.Writer.Threads.Marks.{
  Placed, ready-some_left, take-Held, give-Held, file-Held, count_error, error-Held,
}

-- `got` was published; the part `flushed` of it, and `extra` behind it, are in the file.
pub record Keeps (convert : Bool) (got extra : List ℕ) (io : Io) : Type 0 where
  pub mode : io.convert ≡ convert
  pub flushed : List ℕ
  pub output : io.file.output ≡ rendered convert false (flushed ++ extra)
  pub cr : io.write_cr ≡ held_cr convert false (flushed ++ extra)
  pub split : got ≡ flushed ++ waiting io

-- What holds of the ring and the file, by where writer_thread is.
abbrev pub Phase : (convert : Bool) (got : List ℕ) (stopped : Bool) → Writer → Io → Type 0
Phase convert got stopped Writer.waiting io = Held ready io × Keeps convert got [] io
Phase convert got stopped (Writer.writing slot n) io =
    (slot ≡ io.head)
    × (n ≡ get_or io.lengths io.head 0)
    × (0 < io.count)
    × Held writing io
    × Keeps convert got [] io
Phase convert got stopped wrote io =
    (0 < io.count) × Held writing io × Keeps convert got (slot_bytes io io.head) io
Phase convert got stopped (failed e) io = (0 < io.count) × Held writing io
Phase convert got stopped ended io = ((io.error ≢ 0) ⊎ (stopped ≡ true)) × Placed io

-- write_packet of the slot at the head
write-Keeps :
    (convert : Bool) (got : List ℕ) (io io' : Io)
    → write_bytes (io_packet io io.head).payload (get_or io.lengths io.head 0) io ≡ ok tt io'
    → Held writing io
    → 0 < io.count
    → Keeps convert got [] io
    → (0 < io'.count) × Held writing io' × Keeps convert got (slot_bytes io' io'.head) io'
write-Keeps convert got io io' h r some_left a = rw w.frame (
  some_left,
  file-Held io io'.file io'.write_cr r,
  record {
    mode = a.mode;
    flushed = a.flushed;
    output = cc (
      w.output,
      a.output,
      a.mode,
      a.cr,
      append-nil a.flushed,
      rendered-append convert false a.flushed (slot_bytes io io.head),
    );
    cr = cc (
      w.write_cr,
      a.mode,
      a.cr,
      append-nil a.flushed,
      held_cr-append convert false a.flushed (slot_bytes io io.head),
    );
    split = a.split;
  },
)
  where
    w :
        Written
          (rendered io.convert io.write_cr (slot_bytes io io.head))
          (held_cr io.convert io.write_cr (slot_bytes io io.head))
          io
          io'
    w = write_bytes-Written _ _ io io' h

give-Keeps :
    (convert : Bool) (got : List ℕ) (io : Io)
    → 0 < io.count
    → Keeps convert got (slot_bytes io io.head) io
    → Keeps convert got [] (advance io)
give-Keeps convert got io some_left a =
    let out = a.flushed ++ slot_bytes io io.head in
    record {
      mode = a.mode;
      flushed = out;
      output = a.output ∙ ap (rendered convert false) (sym (append-nil out));
      cr = a.cr ∙ ap (held_cr convert false) (sym (append-nil out));
      split =
          a.split
          ∙ ap (λ l. a.flushed ++ l)
              (ap (gather io.slots (slot_bytes io) io.head) (omega arith)
                ∙ gather-cons io.slots (slot_bytes io) io.head (io.count - 1))
          ∙ sym (append_assoc a.flushed (slot_bytes io io.head) _);
    }

start-Keeps :
    (convert : Bool) (got : List ℕ) (io : Io)
    → Keeps convert got [] io
    → Keeps convert got [] (start_writing io)
start-Keeps convert got io a = record {
  mode = a.mode;
  flushed = a.flushed;
  output = a.output;
  cr = a.cr;
  split = a.split;
}

netascii_write-fail :
    (cs : List ℕ) (io io' : Io) {e : ℕ}
    → netascii_write cs io ≡ fail e io'
    → io' ≡ record io { file = io'.file; write_cr = io'.write_cr }
unfolding netascii_write
netascii_write-fail [] io io' h = absurd (cc)
netascii_write-fail (c ∷ cs) io io' h = grind (arith, netascii_write-fail cs)

-- write_packet that fails has changed the file at most.
pub write_bytes-fail :
    (d : List ℕ) (n : ℕ) (io io' : Io) {e : ℕ}
    → write_bytes d n io ≡ fail e io'
    → io' ≡ record io { file = io'.file; write_cr = io'.write_cr }
unfolding write_bytes octet_write
write_bytes-fail d n io io' h = grind (arith, netascii_write-fail (take n d))

pub io_error-ne_none : (io : Io) (e : ℕ) → (io_error io e).error ≢ 0
unfolding io_error
io_error-ne_none io e = ground arith

-- A turn of writer_thread goes on to a place where the ring and the file are as they should be.
pub writer_turn-Phase :
    (convert : Bool) (got : List ℕ) (io : Io) (stopped : Bool) (w : Writer) (c : Caller)
    → Phase convert got stopped w io
    → let t' = writer_turn (record { io = io; stopped = stopped; writer = w; caller = c }) in
      Phase convert got t'.stopped t'.writer t'.io
unfolding writer_turn
writer_turn-Phase convert got io stopped Writer.waiting c (r, a) =
    elim (Bool-cases (stopped || not (io.error == 0))) [
      | inl over ↦ rw over (ground arith, (ready, refl, inr refl, r))
      | inr on ↦ elim (Bool-cases (is_ready (state_of io io.head))) [
        | inl full ↦
            let some_left = ready-some_left io r full in
            rw (on, full)
              (refl, refl, some_left, take-Held io r some_left, start-Keeps convert got io a)
        | inr idle ↦ rw (on, idle) (r, a)
      ]
    ]
writer_turn-Phase convert got io stopped (Writer.writing slot n) c (e, e', some_left, r, a) =
    rw (e, e')
      (elim (Answer-cases
        (write_bytes (io_packet io io.head).payload (get_or io.lengths io.head 0) io)) [
          | inl (u, io', h) ↦ rw (h, writer_turn) (write-Keeps convert got io io' h r some_left a)
          | inr (errno, io', h) ↦
              rw (h, writer_turn)
                (rw (write_bytes-fail _ _ io io' h)
                  (some_left, file-Held io io'.file io'.write_cr r))
        ])
writer_turn-Phase convert got io stopped wrote c (some_left, r, a) =
    (give-Held io r some_left, give-Keeps convert got io some_left a)
writer_turn-Phase convert got io stopped (failed e) c (some_left, r) = (
  inl (io_error-ne_none io e),
  (writing, refl, inl (count_error io e some_left), error-Held io e r),
)
writer_turn-Phase convert got io stopped ended c h = h

pub Phase-Placed :
    (convert : Bool) (got : List ℕ) (stopped : Bool) (w : Writer) (io : Io)
    → Phase convert got stopped w io
    → Placed io
Phase-Placed convert got stopped Writer.waiting io (r, a) = (ready, refl, inr refl, r)
Phase-Placed convert got stopped (Writer.writing slot n) io (e, e', some_left, r, a) =
    (writing, refl, inl some_left, r)
Phase-Placed convert got stopped wrote io (some_left, r, a) = (writing, refl, inl some_left, r)
Phase-Placed convert got stopped (failed e) io (some_left, r) = (writing, refl, inl some_left, r)
Phase-Placed convert got stopped ended io (over, r) = r
