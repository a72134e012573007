-- ===== src/Io/Writer/Threads/Kept.antt =====
-- Every turn of either thread keeps the invariant.
use network_tftp_tftp_hpa.Prelude.{
  ℕ, sym, subst, Bool, true, false, List, [], ◌∷◌, ◌++◌, append_assoc,
}
use network_tftp_tftp_hpa.Io.{Io}
use network_tftp_tftp_hpa.Io.Writer.Threads.{
  Writer, Caller, Threads, Call, idle, filling, flushing, drained, finished, refused, stopping,
  reserve, copy, publish, drain, flush, finish, stop, caller_turn, Turn, by_writer, by_caller, turn,
  schedule, writer_turn,
}
use network_tftp_tftp_hpa.Io.Writer.Threads.Invariant.{Inv, writer_turn-Inv, writer_turn-caller}
use network_tftp_tftp_hpa.Io.Writer.Threads.Returned.{
  published_by, sent_by, sent, Holds, same-Holds, reserve_turn-Holds, copy-Holds, drain_turn-Holds,
  publish_turn-Holds, flush_turn-Holds, finish_turn-Holds, state,
}

-- The calls of the other thread keep the invariant.
caller_turn-Holds :
    (convert : Bool) (got : List ℕ) (io : Io) (stopped : Bool) (w : Writer) (c : Caller)
    (call : Call)
    → Inv convert got stopped w io c
    → Holds convert
        (got ++ published_by call (record { io = io; stopped = stopped; writer = w; caller = c }))
        (caller_turn call (record { io = io; stopped = stopped; writer = w; caller = c }))
unfolding caller_turn
caller_turn-Holds convert got io true w idle call (p, s) = absurd (cc)
caller_turn-Holds convert got io false w idle reserve (p, s) =
    reserve_turn-Holds convert got io w idle p (p, s)
caller_turn-Holds convert got io false w idle drain (p, s) =
    drain_turn-Holds convert got io w idle p (p, s)
caller_turn-Holds convert got io false w idle stop h = tt
caller_turn-Holds convert got io false w idle call h =
    same-Holds convert got (state convert got io w idle) h
caller_turn-Holds convert got io true w (filling slot d) call (p, k) = absurd (cc (k.0))
caller_turn-Holds convert got io false w (filling slot d) (copy d') (p, (s, e, h, copied)) =
    rw e (copy-Holds convert got io w (filling slot d) p d' h)
caller_turn-Holds convert got io false w (filling slot d) publish (p, (s, e, h, copied)) =
    publish_turn-Holds convert got io w slot d p h copied
caller_turn-Holds convert got io false w (filling slot d) stop h = tt
caller_turn-Holds convert got io false w (filling slot d) call h =
    same-Holds convert got (state convert got io w (filling slot d)) h
caller_turn-Holds convert got io true w flushing call (p, k) = absurd (cc (k.0))
caller_turn-Holds convert got io false w flushing flush (p, (s, n, e)) =
    flush_turn-Holds convert got io w p n e
caller_turn-Holds convert got io false w flushing call h =
    same-Holds convert got (state convert got io w flushing) h
caller_turn-Holds convert got io true w drained call (p, k) = absurd (cc (k.0))
caller_turn-Holds convert got io false w drained reserve (p, k) =
    reserve_turn-Holds convert got io w drained p (p, k)
caller_turn-Holds convert got io false w drained finish (p, (s, n, e)) =
    finish_turn-Holds convert got io w p n e
caller_turn-Holds convert got io false w drained stop h = tt
caller_turn-Holds convert got io false w drained call h =
    same-Holds convert got (state convert got io w drained) h
caller_turn-Holds convert got io stopped w finished stop h = tt
caller_turn-Holds convert got io stopped w finished call h =
    same-Holds convert got (record { io = io; stopped = stopped; writer = w; caller = finished }) h
caller_turn-Holds convert got io stopped w (refused e) stop h = tt
caller_turn-Holds convert got io stopped w (refused e) call h = tt
caller_turn-Holds convert got io stopped w stopping call h = tt

turn-Holds :
    (convert : Bool) (got : List ℕ) (m : Turn) (t : Threads)
    → Holds convert got t
    → Holds convert (got ++ sent_by m t) (turn m t)
unfolding turn
turn-Holds convert got by_writer t h = same-Holds convert got (writer_turn t) (
    subst (λ c. Inv convert got (writer_turn t).stopped (writer_turn t).writer (writer_turn t).io c)
      (sym (writer_turn-caller t)) (writer_turn-Inv convert got t.io t.stopped t.writer t.caller h))
turn-Holds convert got (by_caller call) t h =
    caller_turn-Holds convert got t.io t.stopped t.writer t.caller call h

pub schedule-Holds :
    (convert : Bool) (got : List ℕ) (ms : List Turn) (t : Threads)
    → Holds convert got t
    → Holds convert (got ++ sent ms t) (schedule ms t)
unfolding schedule
schedule-Holds convert got [] t h = same-Holds convert got t h
schedule-Holds convert got (m ∷ ms) t h =
    subst (λ g. Holds convert g (schedule ms (turn m t))) (append_assoc got (sent_by m t) _)
      (schedule-Holds convert (got ++ sent_by m t) ms (turn m t) (turn-Holds convert got m t h))
