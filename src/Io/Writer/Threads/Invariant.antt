-- ===== src/Io/Writer/Threads/Invariant.antt =====
-- What holds of both threads between any two turns.
use network_tftp_tftp_hpa.Prelude.{
  ℕ, ◌≡◌, ◌≢◌, inl, inr, refl, sym, ◌∙◌, subst, Bool, false, List, arith, set, get_or-set_ne,
  Bool-cases,
}
use network_tftp_tftp_hpa.Xfer.Send.Window.{Answer-cases}
use network_tftp_tftp_hpa.Io.{Io, SlotState, empty, reserved, ready, writing, io_packet, io_error}
use network_tftp_tftp_hpa.Io.Codec.Decode.{write_bytes}
use network_tftp_tftp_hpa.Io.Codec.Decode.Spec.{Written, write_bytes-Written}
use network_tftp_tftp_hpa.Io.Writer.{state_of, is_ready}
use network_tftp_tftp_hpa.Io.Writer.Drain.{render}
use network_tftp_tftp_hpa.Io.Writer.Threads.{
  Writer, Caller, Threads, wrote, failed, ended, idle, filling, flushing, drained, finished,
  refused, stopping, writer_turn,
}
use network_tftp_tftp_hpa.Io.Writer.Threads.Held.{Held}
use network_tftp_tftp_hpa.Io.Writer.Threads.Turns.{Phase, write_bytes-fail, writer_turn-Phase}
use network_tftp_tftp_hpa.Io.Writer.Threads.Marks.{ready-some_left}

-- What the other thread knows, by where it is.
abbrev pub Knows : (stopped : Bool) → Io → Caller → Type 0
Knows stopped io idle = stopped ≡ false
Knows stopped io (filling slot d) =
    (stopped ≡ false)
    × (slot ≡ io.tail)
    × (state_of io io.tail ≡ reserved)
    × ((io_packet io io.tail).payload ≡ d)
Knows stopped io flushing = (stopped ≡ false) × (io.count ≡ 0) × (io.error ≡ 0)
Knows stopped io drained = (stopped ≡ false) × (io.count ≡ 0) × (io.error ≡ 0)
Knows stopped io _ = Unit

-- writer_thread waits for a slot, and there is none.
abbrev pub IsQuiet : (stopped : Bool) → Writer → Io → Type 0
IsQuiet stopped w io =
    (w ≡ Writer.waiting) × (stopped ≡ false) × (io.count ≡ 0) × (io.error ≡ 0) × Held ready io

-- Until a call has failed, or tftp_io_stop is called.
abbrev pub Inv : (convert : Bool) (got : List ℕ) (stopped : Bool) → Writer → Io → Caller → Type 0
Inv convert got stopped w io finished = IsQuiet stopped w io × (io.file.output ≡ render convert got)
Inv convert got stopped w io (refused e) = Unit
Inv convert got stopped w io stopping = Unit
Inv convert got stopped w io c = Phase convert got stopped w io × Knows stopped io c

pub writer_turn-caller : (t : Threads) → (writer_turn t).caller ≡ t.caller
unfolding writer_turn
writer_turn-caller t = grind arith

pub writer_turn-stopped : (t : Threads) → (writer_turn t).stopped ≡ t.stopped
unfolding writer_turn
writer_turn-stopped t = grind arith

-- An empty ring without an error: writer_thread waits.
pub Phase-IsQuiet :
    (convert : Bool) (got : List ℕ) (stopped : Bool) (w : Writer) (io : Io)
    → Phase convert got stopped w io
    → stopped ≡ false
    → io.count ≡ 0
    → io.error ≡ 0
    → IsQuiet stopped w io
Phase-IsQuiet convert got stopped Writer.waiting io (r, a) s n e = (refl, s, n, e, r)
Phase-IsQuiet convert got stopped (Writer.writing slot m) io h s n e = absurd (omega (arith, h.2))
Phase-IsQuiet convert got stopped wrote io h s n e = absurd (omega (arith, h.0))
Phase-IsQuiet convert got stopped (failed x) io h s n e = absurd (omega (arith, h.0))
Phase-IsQuiet convert got stopped ended io (over, r) s n e = absurd (ground arith)

pub IsQuiet-writer_turn :
    (io : Io) (stopped : Bool) (w : Writer) (c : Caller)
    → IsQuiet stopped w io
    → writer_turn (record { io = io; stopped = stopped; writer = w; caller = c })
      ≡ record { io = io; stopped = stopped; writer = w; caller = c }
unfolding writer_turn
IsQuiet-writer_turn io stopped w c (e, s, n, z, r) =
    elim (Bool-cases (is_ready (state_of io io.head))) [
      | inl full ↦ absurd (omega (arith, ready-some_left io r full))
      | inr none_ready ↦ ground arith
    ]

-- The reserved slot is left alone.
abbrev Left : (io io' : Io) → Type 0
Left io io' =
    (io'.tail ≡ io.tail)
    × (state_of io' io.tail ≡ reserved)
    × ((io_packet io' io.tail).payload ≡ (io_packet io io.tail).payload)

mark-Left :
    (io : Io) (v : SlotState)
    → io.head ≢ io.tail
    → state_of io io.tail ≡ reserved
    → state_of (record io { states = set io.states io.head v }) io.tail ≡ reserved
mark-Left io v ne h = get_or-set_ne io.states _ _ v empty ne ∙ h

writer_turn-Left :
    (convert : Bool) (got : List ℕ) (io : Io) (stopped : Bool) (w : Writer) (c : Caller)
    → Phase convert got stopped w io
    → state_of io io.tail ≡ reserved
    → Left io (writer_turn (record { io = io; stopped = stopped; writer = w; caller = c })).io
unfolding writer_turn
writer_turn-Left convert got io stopped Writer.waiting c (r, a) h =
    elim (Bool-cases (is_ready (state_of io io.head))) [
      | inl full ↦
          let ne : io.head ≢ io.tail = λ e. ground arith in grind (arith, mark-Left io writing ne h)
      | inr none_ready ↦ ground arith
    ]
writer_turn-Left convert got io stopped (Writer.writing slot n) c p h =
    elim (Answer-cases (write_bytes (io_packet io slot).payload n io)) [
      | inl (u, io', e) ↦
          let frame = Written.frame (write_bytes-Written _ _ io io' e) in
          rw (e, writer_turn) (rw frame (refl, h, refl))
      | inr (x, io', e) ↦
          let frame = write_bytes-fail _ _ io io' e in
          rw (e, writer_turn) (rw frame (refl, h, refl))
    ]
writer_turn-Left convert got io stopped wrote c (some_left, r, a) h =
    let ne : io.head ≢ io.tail = λ e. ground (arith, r.first some_left) in
    (refl, mark-Left io empty ne h, refl)
writer_turn-Left convert got io stopped (failed e) c p h = unfold io_error in ground arith
writer_turn-Left convert got io stopped ended c p h = (refl, h, refl)

-- A turn of writer_thread keeps the invariant.
pub writer_turn-Inv :
    (convert : Bool) (got : List ℕ) (io : Io) (stopped : Bool) (w : Writer) (c : Caller)
    → Inv convert got stopped w io c
    → let t = writer_turn (record { io = io; stopped = stopped; writer = w; caller = c }) in
      Inv convert got t.stopped t.writer t.io c
writer_turn-Inv convert got io stopped w idle (p, s) =
    (writer_turn-Phase convert got io stopped w idle p, writer_turn-stopped _ ∙ s)
writer_turn-Inv convert got io stopped w (filling slot d) (p, (s, e, h, copied)) =
    let t : Threads =
      writer_turn (record { io = io; stopped = stopped; writer = w; caller = filling slot d }) in
    let (at, kept, bytes) = writer_turn-Left convert got io stopped w (filling slot d) p h in
    (
      writer_turn-Phase convert got io stopped w (filling slot d) p,
      (
        writer_turn-stopped _ ∙ s,
        e ∙ sym at,
        subst (λ i. state_of t.io i ≡ reserved) (sym at) kept,
        subst (λ i. (io_packet t.io i).payload ≡ d) (sym at) (bytes ∙ copied),
      ),
    )
writer_turn-Inv convert got io stopped w flushing (p, (s, n, e)) =
    let quiet = Phase-IsQuiet convert got stopped w io p s n e in
    subst (λ (t : Threads). Inv convert got t.stopped t.writer t.io flushing)
      (sym (IsQuiet-writer_turn io stopped w flushing quiet)) (p, (s, n, e))
writer_turn-Inv convert got io stopped w drained (p, (s, n, e)) =
    let quiet = Phase-IsQuiet convert got stopped w io p s n e in
    subst (λ (t : Threads). Inv convert got t.stopped t.writer t.io drained)
      (sym (IsQuiet-writer_turn io stopped w drained quiet)) (p, (s, n, e))
writer_turn-Inv convert got io stopped w finished (quiet, out) =
    subst (λ (t : Threads). Inv convert got t.stopped t.writer t.io finished)
      (sym (IsQuiet-writer_turn io stopped w finished quiet)) (quiet, out)
writer_turn-Inv convert got io stopped w (refused e) h = tt
writer_turn-Inv convert got io stopped w stopping h = tt
