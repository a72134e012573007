-- ===== src/Io/Writer/Threads/Leaves.antt =====
-- The wait of tftp_io_write_drain in common/tftp-io.c ends.
use network_tftp_tftp_hpa.Prelude.{
  ℕ, zero, suc, ◌*◌, ◌≤◌, ◌≡◌, ◌≢◌, ◌⊎◌, inl, inr, refl, sym, ap, ◌∙◌, subst, Bool, true, false,
  List, [], ◌∷◌, ◌++◌, arith, some, replicate, ◌==◌, Bool-cases, ==_iff,
}
use network_tftp_tftp_hpa.Stdio.{Stream}
use network_tftp_tftp_hpa.Io.{Io, tftp_io_writer_start}
use network_tftp_tftp_hpa.Io.Writer.Threads.{
  Writer, Caller, Threads, Call, Turn, by_writer, by_caller, writer_turn, caller_turn, drain_turn,
  turn, schedule,
}
use network_tftp_tftp_hpa.Io.Writer.Threads.Rests.{WriterRests, CallerRests, writer_waits-rests}
use network_tftp_tftp_hpa.Io.Writer.Threads.Drains.{schedule-Drains}
use network_tftp_tftp_hpa.Io.Writer.Threads.Sleep.{
  Sleep, awake, asleep, woken, Sleepers, writer_waits, caller_waits, writer_broadcasts, wake,
  writer_acts, in_call, caller_acts, act, acts, all_awake,
}
use network_tftp_tftp_hpa.Io.Writer.Threads.Wakes.{NoneLost, writer_acts-NoneLost, acts-NoneLost}
use network_tftp_tftp_hpa.Io.Writer.Threads.Shadow.{acts-Shadow}

-- The other thread is in the wait of tftp_io_write_drain, asleep or woken.
abbrev InDrain : Sleep → Type 0
InDrain s = (s ≡ asleep Call.drain) ⊎ (s ≡ woken Call.drain)

abbrev Draining : Sleepers → Type 0
Draining s = NoneLost s × (s.threads.caller ≡ Caller.idle) × InDrain s.caller_sleep

-- The condition of that wait is over.
abbrev Over : Threads → Type 0
Over t = (t.io.count ≡ 0) ⊎ (t.io.error ≢ 0)

-- It has come out of the wait: on its way to fflush(), or with an error.
abbrev pub Left : Caller → Type 0
Left Caller.flushing = Unit
Left (Caller.refused e) = Unit
Left Caller.idle = ⊥
Left (Caller.filling slot d) = ⊥
Left Caller.drained = ⊥
Left Caller.finished = ⊥
Left Caller.stopping = ⊥

not_waiting :
    (io : Io) (stopped : Bool) (w : Writer) (c : Caller)
    → let t : Threads = record { io = io; stopped = stopped; writer = w; caller = c } in
      Over t → caller_waits Call.drain t ≡ false
unfolding caller_waits
not_waiting io stopped w Caller.idle (inl none) = ground arith
not_waiting io stopped w Caller.idle (inr bad) = ground arith
not_waiting io stopped w _ over = refl

drain_turn-Left :
    (io : Io) (stopped : Bool) (w : Writer)
    → let t : Threads = record { io = io; stopped = stopped; writer = w; caller = Caller.idle } in
      Over t → Left (caller_turn Call.drain t).caller
unfolding caller_turn drain_turn
drain_turn-Left io stopped w over = elim (Bool-cases (io.error == 0)) [
  | inr bad ↦
      let t : Threads = record { io = io; stopped = stopped; writer = w; caller = Caller.idle } in
      let step : caller_turn Call.drain t ≡ record t { caller = Caller.refused io.error } =
        ground (arith, bad) in
      subst (λ (u : Threads). Left u.caller) (sym step) tt
  | inl good ↦
      let t : Threads = record { io = io; stopped = stopped; writer = w; caller = Caller.idle } in
      let step : caller_turn Call.drain t ≡ record t { caller = Caller.flushing } =
        ground (arith, good, over) in
      subst (λ (u : Threads). Left u.caller) (sym step) tt
]

waits-idle :
    (io : Io) (stopped : Bool) (w : Writer) (c : Caller)
    → caller_waits Call.drain (record { io = io; stopped = stopped; writer = w; caller = c }) ≡ true
    → c ≡ Caller.idle
unfolding caller_waits
waits-idle io stopped w Caller.idle e = refl
waits-idle io stopped w _ e = absurd (cc)

in_call-threads :
    (call : Call) (s : Sleepers)
    → caller_waits call s.threads ≡ false
    → (in_call call s).threads ≡ caller_turn call s.threads
unfolding in_call
in_call-threads call s goes = ground (arith, goes)

in_call-Left :
    (io : Io) (stopped : Bool) (w : Writer) (b : Bool) (c : Sleep)
    → let t : Threads = record { io = io; stopped = stopped; writer = w; caller = Caller.idle } in
      Over t
      → Left
          (in_call Call.drain
            (record { threads = t; writer_asleep = b; caller_sleep = c })).threads.caller
in_call-Left io stopped w b c over =
    subst (λ (u : Threads). Left u.caller)
      (sym (in_call-threads Call.drain _ (not_waiting io stopped w Caller.idle over)))
      (drain_turn-Left io stopped w over)

-- Its turn then comes out of the wait, whatever call it is offered.
caller_acts-Left :
    (io : Io) (stopped : Bool) (w : Writer) (b : Bool) (c : Sleep) (call : Call)
    → let s : Sleepers = record {
      threads = record { io = io; stopped = stopped; writer = w; caller = Caller.idle };
      writer_asleep = b;
      caller_sleep = c;
    } in
      NoneLost s → InDrain c → Over s.threads → Left (caller_acts call s).threads.caller
unfolding caller_acts
caller_acts-Left io stopped w b awake call h (inl d) over = absurd (cc)
caller_acts-Left io stopped w b awake call h (inr d) over = absurd (cc)
caller_acts-Left io stopped w b (asleep k) call h (inl d) over =
    let same : k ≡ Call.drain = cc in
    let over_now = not_waiting io stopped w Caller.idle over in let waits = h.1 in absurd (cc)
caller_acts-Left io stopped w b (asleep k) call h (inr d) over = absurd (cc)
caller_acts-Left io stopped w b (woken k) call h (inl d) over = absurd (cc)
caller_acts-Left io stopped w b (woken k) call h (inr d) over =
    let same : k ≡ Call.drain = cc in rw same (in_call-Left io stopped w b (woken Call.drain) over)

wake-InDrain : (b : Bool) (c : Sleep) → InDrain c → InDrain (wake b c)
wake-InDrain b awake (inl e) = absurd (cc)
wake-InDrain b awake (inr e) = absurd (cc)
wake-InDrain true (asleep k) (inl e) = inr cc
wake-InDrain true (asleep k) (inr e) = absurd (cc)
wake-InDrain true (woken k) h = h
wake-InDrain false c h = h

writer_turn-caller : (t : Threads) → (writer_turn t).caller ≡ t.caller
unfolding writer_turn
writer_turn-caller t = ground arith

-- While there is no error, a turn of writer_thread is one, asleep or not.
resting_turn : (t : Threads) → WriterRests true t → t.io.error ≡ 0 → writer_turn t ≡ t
unfolding writer_turn
resting_turn t (w, s, h) good = ground (arith, w, s, h, good)

writer_acts-turn :
    (s : Sleepers)
    → NoneLost s
    → s.threads.io.error ≡ 0
    → (writer_acts s).threads ≡ writer_turn s.threads
unfolding writer_acts
writer_acts-turn s lost good = elim (Bool-cases s.writer_asleep) [
  | inl sleeping ↦
      let rests = subst (λ b. WriterRests b s.threads) sleeping lost.0 in
      let still = resting_turn s.threads rests good in ground (arith, sleeping, still)
  | inr up ↦ elim (Bool-cases (writer_waits s.threads)) [
    | inl waits ↦
        let t = s.threads in
        let rests = writer_waits-rests t.io t.stopped t.writer t.caller waits in
        let still = resting_turn t rests good in ground (arith, up, waits, still)
    | inr goes ↦ ground (arith, up, goes)
  ]
]

writer_acts-sleep :
    (s : Sleepers)
    → ((writer_acts s).caller_sleep ≡ s.caller_sleep)
      ⊎ ((writer_acts s).caller_sleep ≡ wake (writer_broadcasts s.threads.writer) s.caller_sleep)
unfolding writer_acts
writer_acts-sleep s = elim (Bool-cases s.writer_asleep) [
  | inl sleeping ↦ inl (ground (arith, sleeping))
  | inr up ↦ elim (Bool-cases (writer_waits s.threads)) [
    | inl waits ↦ inl (ground (arith, up, waits))
    | inr goes ↦ inr (ground (arith, up, goes))
  ]
]

writer_acts-Draining :
    (s : Sleepers) → Draining s → s.threads.io.error ≡ 0 → Draining (writer_acts s)
writer_acts-Draining s (lost, idle, waits) good = (
  writer_acts-NoneLost s lost,
  ap Threads.caller (writer_acts-turn s lost good) ∙ writer_turn-caller s.threads ∙ idle,
  elim (writer_acts-sleep s) [
    | inl same ↦ subst InDrain (sym same) waits
    | inr changed ↦ subst InDrain (sym changed) (wake-InDrain _ s.caller_sleep waits)
  ],
)

-- Within `bound` turns of writer_thread and one of its own, the other thread is out of its wait.
abbrev pub LeavesWithin : (bound : ℕ) (call : Call) → Sleepers → Type 0
LeavesWithin bound call s =
    (n : ℕ) × (n ≤ bound)
    × Left (acts (replicate n by_writer ++ by_caller call ∷ []) s).threads.caller

Over-Leaves :
    (bound : ℕ) (call : Call) (s : Sleepers)
    → Draining s
    → Over s.threads
    → LeavesWithin bound call s
unfolding acts act
Over-Leaves bound call s (lost, idle, waits) over =
    let t = s.threads in
    let At : Caller → Sleepers = λ v. record {
      threads = record { io = t.io; stopped = t.stopped; writer = t.writer; caller = v };
      writer_asleep = s.writer_asleep;
      caller_sleep = s.caller_sleep;
    } in
    let left =
      subst (λ v. NoneLost (At v) → Left (caller_acts call (At v)).threads.caller) (sym idle)
        (λ l.
          caller_acts-Left t.io t.stopped t.writer s.writer_asleep s.caller_sleep call l waits
            over) in
    (0, omega arith, left lost)

drains-Leaves :
    (n : ℕ) (call : Call) (s : Sleepers)
    → Draining s
    → Over (schedule (replicate n by_writer) s.threads)
    → LeavesWithin n call s
unfolding schedule turn acts act
drains-Leaves zero call s d over = Over-Leaves 0 call s d over
drains-Leaves (suc n) call s d over = elim (Bool-cases (s.threads.io.error == 0)) [
  | inr bad ↦ Over-Leaves (suc n) call s d (inr (λ z. ground arith))
  | inl good ↦
      let none = (==_iff s.threads.io.error 0).0 good in
      let step = writer_acts-turn s d.0 none in
      let (m, le, left) =
        drains-Leaves n call (writer_acts s) (writer_acts-Draining s d none)
          (subst (λ t. Over (schedule (replicate n by_writer) t)) (sym step) over) in
      (suc m, omega arith, left)
]

-- The two threads from the start, in any order of turns, where a thread that calls
-- pthread_cond_wait() has no turn before a pthread_cond_broadcast() wakes it: if the transferring
-- thread sleeps in tftp_io_write_drain, then after at most three turns of writer_thread for each slot
-- that is published its own next turn comes out of that wait, to fflush() or with an error.
pub acts-LeavesWithin :
    (file : Stream) (convert : Bool) (slots blocksize : ℕ) (io : Io) (ms : List Turn) (call : Call)
    → file.output ≡ []
    → tftp_io_writer_start file convert slots blocksize ≡ some io
    → (acts ms (all_awake io)).caller_sleep ≡ asleep Call.drain
    → LeavesWithin (3 * (acts ms (all_awake io)).threads.io.count) call (acts ms (all_awake io))
acts-LeavesWithin file convert slots blocksize io ms call e h sleeping =
    let s = acts ms (all_awake io) in
    let lost = acts-NoneLost ms (all_awake io) (tt, tt) in
    let t = s.threads in
    let rests : caller_waits Call.drain t ≡ true = subst (λ c. CallerRests c t) sleeping lost.1 in
    let idle = waits-idle t.io t.stopped t.writer t.caller rests in
    let (ns, same) = acts-Shadow ms (all_awake io) in
    let (n, le, over) =
      schedule-Drains file convert slots blocksize io ns e h
        (ap Threads.caller (sym same) ∙ idle) in
    let (m, small, left) =
      drains-Leaves n call s (lost, idle, inl sleeping)
        (subst (λ u. Over (schedule (replicate n by_writer) u)) (sym same) over) in
    let counts = ap (λ (u : Threads). u.io.count) same in (m, omega arith, left)
