-- ===== src/Io/Writer/Threads/Returned.antt =====
-- What each call of the other thread leaves, where it waits, fails or returns.
use network_tftp_tftp_hpa.Prelude.{
  ℕ, ◌≡◌, inl, inr, refl, sym, ap, ◌∙◌, subst, Bool, true, false, List, [], ◌∷◌, ◌++◌, append-nil,
  arith, length, get_or-set_self, Bool-cases, ◌==◌, ltb,
}
use network_tftp_tftp_hpa.Packet.{Packet}
use network_tftp_tftp_hpa.Xfer.{ok, fail}
use network_tftp_tftp_hpa.Xfer.Send.Window.{Answer-cases}
use network_tftp_tftp_hpa.Io.{Io, blank, empty, reserved, io_packet}
use network_tftp_tftp_hpa.Io.Writer.{
  state_of, is_empty, is_reserved, tftp_io_writer_reserve, tftp_io_write_finish,
}
use network_tftp_tftp_hpa.Io.Codec.Decode.Spec.{rendered, held_cr}
use network_tftp_tftp_hpa.Io.Writer.Ring.{gather, gather-zero}
use network_tftp_tftp_hpa.Io.Writer.Publish.{slot_bytes}
use network_tftp_tftp_hpa.Io.Writer.Drain.{finish-stored}
use network_tftp_tftp_hpa.Io.Writer.Threads.{
  Writer, Caller, Threads, Call, filling, flushing, drained, finished, store, publish, reserve_turn,
  publish_length, publish_turn, drain_turn, flush_turn, finish_turn, Turn, by_writer, by_caller,
  turn,
}
use network_tftp_tftp_hpa.Io.Writer.Threads.Held.{tail_in}
use network_tftp_tftp_hpa.Io.Writer.Threads.Turns.{Keeps, Phase, Phase-Placed}
use network_tftp_tftp_hpa.Io.Writer.Threads.Marks.{file-Held}
use network_tftp_tftp_hpa.Io.Writer.Threads.Calls.{
  reserve-Phase, store-Phase, published_io, publish-Phase,
}
use network_tftp_tftp_hpa.Io.Writer.Threads.Invariant.{IsQuiet, Inv, Phase-IsQuiet}

-- The bytes that a call publishes.
abbrev pub published_by : Call → Threads → List ℕ
published_by publish t = elim t.caller [
  | filling slot d ↦ elim (publish_length (length d) t.io) [ ok _ io' ↦ d | fail e io' ↦ [] ]
  | _ ↦ []
]
published_by _ t = []

abbrev pub sent_by : Turn → Threads → List ℕ
sent_by by_writer t = []
sent_by (by_caller call) t = published_by call t

-- The bytes that a schedule publishes, in their order.
abbrev pub sent : List Turn → Threads → List ℕ
sent [] t = []
sent (m ∷ ms) t = sent_by m t ++ sent ms (turn m t)

-- The invariant of the two threads at a state.
abbrev pub Holds : (convert : Bool) (got : List ℕ) → Threads → Type 0
Holds convert got t = Inv convert got t.stopped t.writer t.io t.caller

pub same-Holds :
    (convert : Bool) (got : List ℕ) (t : Threads)
    → Holds convert got t
    → Holds convert (got ++ []) t
same-Holds convert got t h = subst (λ g. Holds convert g t) (sym (append-nil got)) h

module _ (convert : Bool) (got : List ℕ) (io : Io) (w : Writer) (c : Caller) where
  abbrev here : Threads
  here = record { io = io; stopped = false; writer = w; caller = c }

  module _ (p : Phase convert got false w io) where
    pub reserve_turn-Holds : Holds convert got here → Holds convert (got ++ []) (reserve_turn here)
    unfolding reserve_turn tftp_io_writer_reserve
    reserve_turn-Holds h = elim (Bool-cases (is_empty (state_of io io.tail))) [
      | inr taken ↦ elim (Bool-cases (io.error == 0)) [
        | inr bad ↦ rw (taken, bad) tt
        | inl good ↦ rw (taken, good) (same-Holds convert got here h)
      ]
      | inl free ↦ elim (Bool-cases (io.error == 0)) [
        | inr bad ↦ rw (free, bad) tt
        | inl good ↦
            let (front, busy, at_front, r) = Phase-Placed convert got false w io p in
            let marked =
              get_or-set_self io.states io.tail reserved empty
                (omega (arith, tail_in io r, r.states_length)) in
            rw (free, good)
              (reserve-Phase convert got false io w free p, (refl, refl, marked, refl))
      ]
    ]

    pub copy-Holds :
        (d : List ℕ)
        → state_of io io.tail ≡ reserved
        → Inv convert (got ++ []) false w (store io.tail d io) (filling io.tail d)
    copy-Holds d h =
        let (front, busy, at_front, r) = Phase-Placed convert got false w io p in
        let copied =
          get_or-set_self io.packets io.tail (record (io_packet io io.tail) { payload = d }) blank
            (omega (arith, tail_in io r, r.packets_length)) in
        (
          store-Phase convert got false io w d (ap is_reserved h) p,
          (refl, refl, h, ap (λ (q : Packet). q.payload) copied),
        )

    pub drain_turn-Holds : Holds convert got here → Holds convert (got ++ []) (drain_turn here)
    unfolding drain_turn
    drain_turn-Holds h = elim (Bool-cases (io.count == 0)) [
      | inr some_left ↦ elim (Bool-cases (io.error == 0)) [
        | inr bad ↦ rw (some_left, bad) tt
        | inl good ↦ rw (some_left, good) (same-Holds convert got here h)
      ]
      | inl none_left ↦ elim (Bool-cases (io.error == 0)) [
        | inr bad ↦ rw (none_left, bad) tt
        | inl good ↦
            rw (none_left, good)
              (same-Holds convert got (record here { caller = flushing })
                (p, (refl, ground arith, ground arith)))
      ]
    ]

-- tftp_io_write_finish changes the file at most.
finish-frame :
    (io io' : Io)
    → tftp_io_write_finish io ≡ ok tt io'
    → io' ≡ record io { file = io'.file; write_cr = io'.write_cr }
unfolding tftp_io_write_finish
finish-frame io io' h = grind arith

-- With an empty ring all that was published is in the file.
Keeps-all :
    (convert : Bool) (got : List ℕ) (io : Io) (k : Keeps convert got [] io)
    → io.count ≡ 0
    → got ≡ k.flushed ++ []
Keeps-all convert got io k none_left =
    k.split
    ∙ ap (λ n. k.flushed ++ gather io.slots (slot_bytes io) io.head n) none_left
    ∙ ap (λ l. k.flushed ++ l) (gather-zero io.slots (slot_bytes io) io.head)

module _ (convert : Bool) (got : List ℕ) (io : Io) (w : Writer) where
  abbrev pub state : Caller → Threads
  state c = record { io = io; stopped = false; writer = w; caller = c }

  pub publish_turn-Holds :
      (slot : ℕ) (d : List ℕ)
      → Phase convert got false w io
      → state_of io io.tail ≡ reserved
      → (io_packet io io.tail).payload ≡ d
      → Holds convert
          (got ++ published_by publish (state (filling slot d)))
          (publish_turn d (state (filling slot d)))
  unfolding publish_turn publish_length
  publish_turn-Holds slot d p h copied = elim (Bool-cases (ltb io.blocksize (length d))) [
    | inl large ↦
        let step : publish_length (length d) io ≡ fail 22 io = ground arith in
        rw (step, publish_turn) tt
    | inr fits ↦
        let marked : is_reserved (state_of io io.tail) ≡ true = ap is_reserved h in
        let step : publish_length (length d) io ≡ ok tt (published_io convert got false io d) =
          ground arith in
        rw (step, publish_turn, published_by)
          (publish-Phase convert got false io w d marked copied p, refl)
  ]

  pub flush_turn-Holds :
      Phase convert got false w io
      → io.count ≡ 0
      → io.error ≡ 0
      → Holds convert (got ++ []) (flush_turn (state flushing))
  unfolding flush_turn
  flush_turn-Holds p n e = elim (Bool-cases (io.file.flush_errno == 0)) [
    | inl good ↦ rw good (same-Holds convert got (state drained) (p, (refl, n, e)))
    | inr bad ↦ rw bad tt
  ]

  pub finish_turn-Holds :
      Phase convert got false w io
      → io.count ≡ 0
      → io.error ≡ 0
      → Holds convert (got ++ []) (finish_turn (state drained))
  unfolding finish_turn
  finish_turn-Holds p n e = elim (Answer-cases (tftp_io_write_finish io)) [
    | inr (x, io', h) ↦ rw (h, finish_turn) tt
    | inl (u, io', h) ↦
        let quiet = Phase-IsQuiet convert got false w io p refl n e in
        let k = (subst (λ v. Phase convert got false v io) quiet.0 p).1 in
        let all = Keeps-all convert got io k n in
        let stored =
          finish-stored convert got io io' (k.output ∙ ap (rendered convert false) (sym all))
            (k.cr ∙ ap (held_cr convert false) (sym all)) k.mode h in
        let kept : IsQuiet false w io' =
          subst (IsQuiet false w) (sym (finish-frame io io' h))
            (quiet.0, refl, n, e, file-Held io io'.file io'.write_cr quiet.4) in
        rw (h, finish_turn)
          (same-Holds convert got
            (record { io = io'; stopped = false; writer = w; caller = finished }) (kept, stored))
  ]
