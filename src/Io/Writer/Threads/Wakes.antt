-- ===== src/Io/Writer/Threads/Wakes.antt =====
-- No wake-up is lost on the writing side of common/tftp-io.c: a thread sleeps only while it has
-- reason to.
use network_tftp_tftp_hpa.Prelude.{
  ◌≡◌, inl, inr, refl, subst, Bool, true, false, not, ◌&&◌, List, [], ◌∷◌, Bool-cases,
}
use network_tftp_tftp_hpa.Io.Writer.Threads.{
  Threads, Call, Turn, by_writer, by_caller, writer_turn, caller_turn,
}
use network_tftp_tftp_hpa.Io.Writer.Threads.Rests.{
  WriterRests, CallerRests, Rests, writer_waits-rests, writer_turn-caller_waits, caller_turn-Rests,
}
use network_tftp_tftp_hpa.Io.Writer.Threads.Sleep.{
  Sleep, awake, asleep, woken, Sleepers, writer_waits, caller_waits, writer_broadcasts,
  caller_broadcasts, wake, writer_acts, in_call, caller_acts, act, acts,
}

-- Each thread that sleeps has reason to.
abbrev pub NoneLost : Sleepers → Type 0
NoneLost s = WriterRests s.writer_asleep s.threads × CallerRests s.caller_sleep s.threads

wake-CallerRests :
    (b : Bool) (s : Sleep) (t t' : Threads)
    → ((call : Call) → b ≡ false → caller_waits call t ≡ true → caller_waits call t' ≡ true)
    → CallerRests s t
    → CallerRests (wake b s) t'
wake-CallerRests true awake t t' k h = tt
wake-CallerRests true (asleep call) t t' k h = tt
wake-CallerRests true (woken call) t t' k h = tt
wake-CallerRests false awake t t' k h = tt
wake-CallerRests false (asleep call) t t' k h = k call refl h
wake-CallerRests false (woken call) t t' k h = tt

-- No turn of writer_thread loses a wake-up.
pub writer_acts-NoneLost : (s : Sleepers) → NoneLost s → NoneLost (writer_acts s)
unfolding writer_acts
writer_acts-NoneLost s (r, k) = elim (Bool-cases s.writer_asleep) [
  | inl sleeping ↦ rw (sleeping, writer_acts) (subst (λ b. WriterRests b s.threads) sleeping r, k)
  | inr up ↦ elim (Bool-cases (writer_waits s.threads)) [
    | inl waits ↦
        rw (up, waits)
          (
            writer_waits-rests s.threads.io s.threads.stopped s.threads.writer s.threads.caller
                waits,
            k,
          )
    | inr goes ↦
        let t = s.threads in
        rw (up, goes)
          (
            tt,
            wake-CallerRests (writer_broadcasts t.writer) s.caller_sleep t (writer_turn t)
                (writer_turn-caller_waits t.io t.stopped t.writer t.caller) k,
          )
  ]
]

still-Rests :
    (asleep_now broadcast : Bool) (t t' : Threads)
    → (broadcast ≡ false → Rests t → Rests t')
    → WriterRests asleep_now t
    → WriterRests (asleep_now && not broadcast) t'
still-Rests false b t t' k r = tt
still-Rests true true t t' k r = tt
still-Rests true false t t' k r = k refl r

in_call-NoneLost : (call : Call) (s : Sleepers) → NoneLost s → NoneLost (in_call call s)
unfolding in_call
in_call-NoneLost call s (r, k) = elim (Bool-cases (caller_waits call s.threads)) [
  | inl waits ↦ rw waits (r, waits)
  | inr goes ↦
      let t = s.threads in
      rw goes (
        still-Rests s.writer_asleep (caller_broadcasts call t) t (caller_turn call t)
            (caller_turn-Rests t.io t.stopped t.writer t.caller call) r,
        tt,
      )
]

caller_acts-NoneLost :
    (call : Call) (t : Threads) (b : Bool) (c : Sleep)
    → let s : Sleepers = record { threads = t; writer_asleep = b; caller_sleep = c } in
      NoneLost s → NoneLost (caller_acts call s)
unfolding caller_acts
caller_acts-NoneLost call t b awake h =
    in_call-NoneLost call (record { threads = t; writer_asleep = b; caller_sleep = awake }) h
caller_acts-NoneLost call t b (asleep c) h = h
caller_acts-NoneLost call t b (woken c) h =
    in_call-NoneLost c (record { threads = t; writer_asleep = b; caller_sleep = woken c }) h

act-NoneLost : (m : Turn) (s : Sleepers) → NoneLost s → NoneLost (act m s)
unfolding act
act-NoneLost by_writer s h = writer_acts-NoneLost s h
act-NoneLost (by_caller call) s h =
    caller_acts-NoneLost call s.threads s.writer_asleep s.caller_sleep h

pub acts-NoneLost : (ms : List Turn) (s : Sleepers) → NoneLost s → NoneLost (acts ms s)
unfolding acts
acts-NoneLost [] s h = h
acts-NoneLost (m ∷ ms) s h = acts-NoneLost ms (act m s) (act-NoneLost m s h)
