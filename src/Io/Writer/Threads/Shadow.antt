-- ===== src/Io/Writer/Threads/Shadow.antt =====
-- The writing side of common/tftp-io.c with its waits does what it does in some order of turns.
use network_tftp_tftp_hpa.Prelude.{
  ◌≡◌, inl, inr, refl, sym, ap, ◌∙◌, Bool, List, [], ◌∷◌, ◌++◌, arith, Bool-cases,
}
use network_tftp_tftp_hpa.Io.Writer.Threads.{
  Threads, Call, Turn, by_writer, by_caller, turn, schedule,
}
use network_tftp_tftp_hpa.Io.Writer.Threads.Sleep.{
  Sleep, awake, asleep, woken, Sleepers, writer_waits, caller_waits, writer_acts, in_call,
  caller_acts, act, acts,
}

-- What the threads have done is what they do in some order of turns without sleep.
abbrev pub Shadow : (before after : Threads) → Type 0
Shadow before after = (ms : List Turn) × (after ≡ schedule ms before)

schedule_append :
    (ms ns : List Turn) (t : Threads) → schedule (ms ++ ns) t ≡ schedule ns (schedule ms t)
unfolding schedule
schedule_append [] ns t = refl
schedule_append (m ∷ ms) ns t = schedule_append ms ns (turn m t)

writer_acts-Shadow : (s : Sleepers) → Shadow s.threads (writer_acts s).threads
unfolding writer_acts schedule turn
writer_acts-Shadow s = elim (Bool-cases s.writer_asleep) [
  | inl sleeping ↦ ([], ground arith)
  | inr up ↦ elim (Bool-cases (writer_waits s.threads)) [
    | inl waits ↦ ([], ground arith)
    | inr goes ↦ (by_writer ∷ [], ground arith)
  ]
]

in_call-Shadow : (call : Call) (s : Sleepers) → Shadow s.threads (in_call call s).threads
unfolding in_call schedule turn
in_call-Shadow call s = elim (Bool-cases (caller_waits call s.threads)) [
  | inl waits ↦ ([], ground arith)
  | inr goes ↦ (by_caller call ∷ [], ground arith)
]

act-Shadow :
    (m : Turn) (t : Threads) (b : Bool) (c : Sleep)
    → let s : Sleepers = record { threads = t; writer_asleep = b; caller_sleep = c } in
      Shadow t (act m s).threads
unfolding act caller_acts schedule
act-Shadow by_writer t b c =
    writer_acts-Shadow (record { threads = t; writer_asleep = b; caller_sleep = c })
act-Shadow (by_caller call) t b awake =
    in_call-Shadow call (record { threads = t; writer_asleep = b; caller_sleep = awake })
act-Shadow (by_caller call) t b (asleep c) = ([], refl)
act-Shadow (by_caller call) t b (woken c) =
    in_call-Shadow c (record { threads = t; writer_asleep = b; caller_sleep = woken c })

pub acts-Shadow : (ms : List Turn) (s : Sleepers) → Shadow s.threads (acts ms s).threads
unfolding acts schedule
acts-Shadow [] s = ([], refl)
acts-Shadow (m ∷ ms) s =
    let (first, e) = act-Shadow m s.threads s.writer_asleep s.caller_sleep in
    let (later, e') = acts-Shadow ms (act m s) in
    (first ++ later, e' ∙ ap (schedule later) e ∙ sym (schedule_append first later s.threads))
