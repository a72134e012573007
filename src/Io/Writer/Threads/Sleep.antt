-- ===== src/Io/Writer/Threads/Sleep.antt =====
-- common/tftp-io.c, the writing side with threaded == true: pthread_cond_wait() and
-- pthread_cond_broadcast() on `changed`, around the turns of the two threads.
use network_tftp_tftp_hpa.Prelude.{
  Bool, true, false, not, ◌&&◌, List, [], ◌∷◌, ◌==◌, length, if◌then◌else◌,
}
use network_tftp_tftp_hpa.Xfer.{Answer, ok, fail}
use network_tftp_tftp_hpa.Io.{Io}
use network_tftp_tftp_hpa.Io.Writer.{state_of, is_empty, is_ready}
use network_tftp_tftp_hpa.Io.Writer.Threads.{
  Writer, Caller, Threads, Call, Turn, by_writer, by_caller, writer_turn, caller_turn,
  publish_length, started,
}

-- The thread that transfers is awake, or sleeps in the wait of a call, or has been woken in it and
-- will test the condition again.
pub data Sleep : Type 0 where
  awake : Sleep
  asleep woken : Call → Sleep

-- The two threads, and which of them sleep in pthread_cond_wait().
pub record Sleepers : Type 0 where
  pub threads : Threads
  pub writer_asleep : Bool
  pub caller_sleep : Sleep

-- The condition of the wait in writer_thread.
unfoldable pub writer_waits : Threads → Bool
writer_waits t = elim t.writer [
  | Writer.waiting ↦ not t.stopped && t.io.error == 0 && not (is_ready (state_of t.io t.io.head))
  | _ ↦ false
]

-- The conditions of the waits in tftp_io_writer_reserve and tftp_io_write_drain.
unfoldable pub caller_waits : Call → Threads → Bool
caller_waits call t =
    let full = not (is_empty (state_of t.io t.io.tail)) && t.io.error == 0 in
    let left = not (t.io.count == 0) && t.io.error == 0 in
    elim t.caller [
      | Caller.idle ↦ elim call [ Call.reserve ↦ full | Call.drain ↦ left | _ ↦ false ]
      | Caller.drained ↦ elim call [ Call.reserve ↦ full | _ ↦ false ]
      | _ ↦ false
    ]

-- Whether the turn of writer_thread ends in pthread_cond_broadcast().
unfoldable pub writer_broadcasts : Writer → Bool
writer_broadcasts Writer.wrote = true
writer_broadcasts (Writer.failed e) = true
writer_broadcasts Writer.waiting = false
writer_broadcasts (Writer.writing slot n) = false
writer_broadcasts Writer.ended = false

abbrev pub publish_ok : Answer Io (Unit {0}) → Bool
publish_ok (ok _ io) = true
publish_ok (fail e io) = false

-- Whether the turn of the other thread does: tftp_io_write_publish where it succeeds, and
-- tftp_io_stop.
unfoldable pub caller_broadcasts : Call → Threads → Bool
unfolding publish_length
caller_broadcasts call t = elim call [
  | Call.publish ↦ elim t.caller [
    | Caller.filling slot d ↦ publish_ok (publish_length (length d) t.io)
    | _ ↦ false
  ]
  | Call.stop ↦ elim t.caller [ Caller.flushing ↦ false | Caller.stopping ↦ false | _ ↦ true ]
  | _ ↦ false
]

abbrev pub wake : (broadcast : Bool) → Sleep → Sleep
wake true (asleep call) = woken call
wake true (woken call) = woken call
wake true awake = awake
wake false s = s

-- A turn of writer_thread: one that sleeps has none.
unfoldable pub writer_acts : Sleepers → Sleepers
unfolding writer_waits writer_turn writer_broadcasts
writer_acts s =
    if s.writer_asleep
    then s
    else if writer_waits s.threads
    then record s { writer_asleep = true }
    else record s {
      threads = writer_turn s.threads;
      caller_sleep = wake (writer_broadcasts s.threads.writer) s.caller_sleep;
    }

-- The other thread in a call that it makes, or that it was woken in.
unfoldable pub in_call : Call → Sleepers → Sleepers
unfolding caller_waits caller_turn caller_broadcasts
in_call call s =
    if caller_waits call s.threads then record s { caller_sleep = asleep call } else record s {
      threads = caller_turn call s.threads;
      writer_asleep = s.writer_asleep && not (caller_broadcasts call s.threads);
      caller_sleep = awake;
    }

-- A turn of the other thread, with the call that it makes if it is in none.
unfoldable pub caller_acts : Call → Sleepers → Sleepers
unfolding in_call
caller_acts call s = elim s.caller_sleep [
  | awake ↦ in_call call s
  | asleep c ↦ s
  | woken c ↦ in_call c s
]

unfoldable pub act : Turn → Sleepers → Sleepers
unfolding writer_acts caller_acts
act by_writer s = writer_acts s
act (by_caller call) s = caller_acts call s

unfoldable pub acts : List Turn → Sleepers → Sleepers
unfolding act
acts [] s = s
acts (m ∷ ms) s = acts ms (act m s)

-- io_start with direction == IO_WRITE and threaded.
abbrev pub all_awake : Io → Sleepers
all_awake io = record { threads = started io; writer_asleep = false; caller_sleep = awake }
