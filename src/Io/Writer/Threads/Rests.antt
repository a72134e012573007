-- ===== src/Io/Writer/Threads/Rests.antt =====
-- Why a thread sleeps on the writing side of common/tftp-io.c, and that a turn of the other one that
-- does not broadcast leaves it so.
use network_tftp_tftp_hpa.Prelude.{
  ℕ, zero, suc, ◌≡◌, inl, inr, refl, Bool, true, false, not, ◌||◌, List, [], ◌∷◌, arith, get_or,
  set, length, ◌==◌, Bool-cases,
}
use network_tftp_tftp_hpa.Xfer.{Answer, ok, fail}
use network_tftp_tftp_hpa.Xfer.Send.Window.{Answer-cases}
use network_tftp_tftp_hpa.Io.Codec.Decode.{write_bytes}
use network_tftp_tftp_hpa.Io.Codec.Decode.Spec.{Written, write_bytes-Written}
use network_tftp_tftp_hpa.Io.{Io, empty, SlotState, io_packet, io_error}
use network_tftp_tftp_hpa.Io.Writer.{
  tftp_io_writer_reserve, tftp_io_write_finish, state_of, is_empty, is_ready, start_writing,
}
use network_tftp_tftp_hpa.Io.Writer.Threads.{
  Writer, Caller, Threads, Call, writer_turn, caller_turn, reserve_turn, publish_length,
  publish_turn, drain_turn, flush_turn, finish_turn,
}
use network_tftp_tftp_hpa.Io.Writer.Threads.Turns.{write_bytes-fail}
use network_tftp_tftp_hpa.Io.Writer.Threads.Sleep.{
  publish_ok, Sleep, awake, asleep, woken, writer_waits, caller_waits, writer_broadcasts,
  caller_broadcasts,
}

-- A thread that sleeps has reason to: for writer_thread there is nothing to write and no stop, and
-- for the other one the condition of its wait holds.
abbrev after : Answer Io (Unit {0}) → Io
after (ok _ io) = io
after (fail e io) = io

abbrev pub WriterRests : Bool → Threads → Type 0
WriterRests false t = Unit
WriterRests true t =
    (t.writer ≡ Writer.waiting) × (t.stopped ≡ false) × (is_ready (state_of t.io t.io.head) ≡ false)

abbrev pub CallerRests : Sleep → Threads → Type 0
CallerRests awake t = Unit
CallerRests (asleep call) t = caller_waits call t ≡ true
CallerRests (woken call) t = Unit

pub writer_waits-rests :
    (io : Io) (stopped : Bool) (w : Writer) (c : Caller)
    → let t : Threads = record { io = io; stopped = stopped; writer = w; caller = c } in
      writer_waits t ≡ true → WriterRests true t
unfolding writer_waits
writer_waits-rests io stopped Writer.waiting c e = (refl, ground arith, ground arith)
writer_waits-rests io stopped (Writer.writing slot n) c e = absurd (ground arith)
writer_waits-rests io stopped Writer.wrote c e = absurd (ground arith)
writer_waits-rests io stopped (Writer.failed x) c e = absurd (ground arith)
writer_waits-rests io stopped Writer.ended c e = absurd (ground arith)

-- What the caller's condition reads.
abbrev Alike : Io → Io → Type 0
Alike io io' =
    (is_empty (state_of io io.tail) ≡ false → is_empty (state_of io' io'.tail) ≡ false)
    × (io'.error ≡ io.error)
    × (io'.count ≡ io.count)

caller_waits-Alike :
    (c : Caller) (call : Call) (io io' : Io) (stopped stopped' : Bool) (w w' : Writer)
    → Alike io io'
    → caller_waits call (record { io = io; stopped = stopped; writer = w; caller = c }) ≡ true
    → caller_waits call (record { io = io'; stopped = stopped'; writer = w'; caller = c }) ≡ true
unfolding caller_waits
caller_waits-Alike Caller.idle Call.reserve io io' stopped stopped' w w' (full, e, n) h =
    let still = full (ground arith) in ground (arith, still)
caller_waits-Alike Caller.idle Call.drain io io' stopped stopped' w w' (full, e, n) h = ground arith
caller_waits-Alike Caller.drained Call.reserve io io' stopped stopped' w w' (full, e, n) h =
    let still = full (ground arith) in ground (arith, still)
caller_waits-Alike _ _ io io' stopped stopped' w w' a h = absurd (ground arith)

-- A slot that is set to a state that is not empty.
set-full :
    (xs : List SlotState) (i j : ℕ) (v : SlotState)
    → is_empty v ≡ false
    → is_empty (get_or xs j empty) ≡ false
    → is_empty (get_or (set xs i v) j empty) ≡ false
set-full [] i j v h k = k
set-full (x ∷ xs) zero zero v h k = h
set-full (x ∷ xs) zero (suc j) v h k = k
set-full (x ∷ xs) (suc i) zero v h k = k
set-full (x ∷ xs) (suc i) (suc j) v h k = set-full xs i j v h k

set-unready :
    (xs : List SlotState) (i j : ℕ) (v : SlotState)
    → is_ready v ≡ false
    → is_ready (get_or xs j empty) ≡ false
    → is_ready (get_or (set xs i v) j empty) ≡ false
set-unready [] i j v h k = k
set-unready (x ∷ xs) zero zero v h k = h
set-unready (x ∷ xs) zero (suc j) v h k = k
set-unready (x ∷ xs) (suc i) zero v h k = k
set-unready (x ∷ xs) (suc i) (suc j) v h k = set-unready xs i j v h k

frame-Alike :
    (io io' : Io) → io' ≡ record io { file = io'.file; write_cr = io'.write_cr } → Alike io io'
frame-Alike io io' e = rw e ((λ h. h), refl, refl)

-- A turn of writer_thread without a broadcast leaves the caller's condition as it is.
pub writer_turn-caller_waits :
    (io : Io) (stopped : Bool) (w : Writer) (c : Caller) (call : Call)
    → let t : Threads = record { io = io; stopped = stopped; writer = w; caller = c } in
      writer_broadcasts w ≡ false
      → caller_waits call t ≡ true
      → caller_waits call (writer_turn t) ≡ true
unfolding writer_turn writer_broadcasts
writer_turn-caller_waits io stopped Writer.waiting c call b h =
    elim (Bool-cases (stopped || not (io.error == 0))) [
      | inl over ↦
          rw over (caller_waits-Alike c call io io stopped stopped _ _ ((λ k. k), refl, refl) h)
      | inr on ↦ elim (Bool-cases (is_ready (state_of io io.head))) [
        | inl full ↦
            rw (on, full)
              (caller_waits-Alike c call io (start_writing io) stopped stopped _ _
                (set-full io.states io.head io.tail SlotState.writing refl, refl, refl) h)
        | inr idle ↦ rw (on, idle) h
      ]
    ]
writer_turn-caller_waits io stopped (Writer.writing slot n) c call b h =
    elim (Answer-cases (write_bytes (io_packet io slot).payload n io)) [
      | inl (u, io', e) ↦
          rw (e, writer_turn)
            (caller_waits-Alike c call io io' stopped stopped _ _
              (frame-Alike io io' (Written.frame (write_bytes-Written _ _ io io' e))) h)
      | inr (x, io', e) ↦
          rw (e, writer_turn)
            (caller_waits-Alike c call io io' stopped stopped _ _
              (frame-Alike io io' (write_bytes-fail _ _ io io' e)) h)
    ]
writer_turn-caller_waits io stopped Writer.wrote c call b h = absurd (ground arith)
writer_turn-caller_waits io stopped (Writer.failed e) c call b h = absurd (ground arith)
writer_turn-caller_waits io stopped Writer.ended c call b h = h

-- Both threads, from their parts.
abbrev both : Io → Bool → Writer → Caller → Threads
both io stopped w c = record { io = io; stopped = stopped; writer = w; caller = c }

-- A turn of the other thread without a broadcast leaves writer_thread with nothing to do.
abbrev pub Rests : Threads → Type 0
Rests t = WriterRests true t

reserve_turn-Rests : (t : Threads) → Rests t → Rests (reserve_turn t)
unfolding reserve_turn tftp_io_writer_reserve
reserve_turn-Rests t (w, s, h) =
    let later = set-unready t.io.states t.io.tail t.io.head SlotState.reserved refl h in
    ground (arith, later)

publish_turn-Rests :
    (d : List ℕ) (t : Threads)
    → publish_ok (publish_length (length d) t.io) ≡ false
    → Rests t
    → Rests (publish_turn d t)
unfolding publish_turn publish_length
publish_turn-Rests d t b r = ground arith

drain_turn-Rests : (t : Threads) → Rests t → Rests (drain_turn t)
unfolding drain_turn
drain_turn-Rests t r = ground arith

flush_turn-Rests : (t : Threads) → Rests t → Rests (flush_turn t)
unfolding flush_turn io_error
flush_turn-Rests t r = ground arith

finish-alike :
    (io io' : Io) (a : Answer Io (Unit {0}))
    → tftp_io_write_finish io ≡ a
    → (io' ≡ after a)
    → (io'.states ≡ io.states) × (io'.head ≡ io.head)
unfolding tftp_io_write_finish
finish-alike io io' (ok _ b) e h = ground arith
finish-alike io io' (fail x b) e h = ground arith

finish_turn-Rests : (t : Threads) → Rests t → Rests (finish_turn t)
unfolding finish_turn
finish_turn-Rests t (w, s, h) = elim (Answer-cases (tftp_io_write_finish t.io)) [
  | inl (u, io', e) ↦ let k = finish-alike t.io io' _ e refl in rw (e, finish_turn) (w, s, cc)
  | inr (x, io', e) ↦ let k = finish-alike t.io io' _ e refl in rw (e, finish_turn) (w, s, cc)
]

pub caller_turn-Rests :
    (io : Io) (stopped : Bool) (w : Writer) (c : Caller) (call : Call)
    → let t : Threads = record { io = io; stopped = stopped; writer = w; caller = c } in
      caller_broadcasts call t ≡ false → Rests t → Rests (caller_turn call t)
unfolding caller_turn caller_broadcasts
caller_turn-Rests io stopped w Caller.idle Call.reserve b r =
    reserve_turn-Rests (both io stopped w Caller.idle) r
caller_turn-Rests io stopped w Caller.idle Call.drain b r =
    drain_turn-Rests (both io stopped w Caller.idle) r
caller_turn-Rests io stopped w Caller.idle Call.stop b r = absurd (cc)
caller_turn-Rests io stopped w Caller.idle _ b r = r
caller_turn-Rests io stopped w (Caller.filling slot d) (Call.copy d') b r = r
caller_turn-Rests io stopped w (Caller.filling slot d) Call.publish b r =
    publish_turn-Rests d (both io stopped w (Caller.filling slot d)) b r
caller_turn-Rests io stopped w (Caller.filling slot d) Call.stop b r = absurd (cc)
caller_turn-Rests io stopped w (Caller.filling slot d) _ b r = r
caller_turn-Rests io stopped w Caller.flushing Call.flush b r =
    flush_turn-Rests (both io stopped w Caller.flushing) r
caller_turn-Rests io stopped w Caller.flushing _ b r = r
caller_turn-Rests io stopped w Caller.drained Call.reserve b r =
    reserve_turn-Rests (both io stopped w Caller.drained) r
caller_turn-Rests io stopped w Caller.drained Call.finish b r =
    finish_turn-Rests (both io stopped w Caller.drained) r
caller_turn-Rests io stopped w Caller.drained Call.stop b r = absurd (cc)
caller_turn-Rests io stopped w Caller.drained _ b r = r
caller_turn-Rests io stopped w Caller.finished Call.stop b r = absurd (cc)
caller_turn-Rests io stopped w Caller.finished _ b r = r
caller_turn-Rests io stopped w (Caller.refused e) Call.stop b r = absurd (cc)
caller_turn-Rests io stopped w (Caller.refused e) _ b r = r
caller_turn-Rests io stopped w Caller.stopping call b r = r
