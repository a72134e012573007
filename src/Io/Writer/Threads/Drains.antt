-- ===== src/Io/Writer/Threads/Drains.antt =====
-- The loop of writer_thread empties the ring, where it always has its turn.
use native.Mathlib.Decide.{ℕ_discrete}
use network_tftp_tftp_hpa.Prelude.{
  ℕ, zero, suc, ◌-◌, ◌*◌, ◌≤◌, ◌≡◌, ◌≢◌, ◌⊎◌, inl, inr, refl, sym, ap, ◌∙◌, subst, Bool, true,
  false, List, [], arith, get_or, some, replicate, ◌==◌, Bool-cases,
}
use network_tftp_tftp_hpa.Stdio.{Stream}
use network_tftp_tftp_hpa.Xfer.Send.Window.{Answer-cases}
use network_tftp_tftp_hpa.Io.Codec.Decode.{write_bytes}
use network_tftp_tftp_hpa.Io.Codec.Decode.Spec.{Written, write_bytes-Written}
use network_tftp_tftp_hpa.Io.{Io, io_packet, tftp_io_writer_start}
use network_tftp_tftp_hpa.Io.Writer.{state_of, is_ready, advance, start_writing}
use network_tftp_tftp_hpa.Io.Writer.Threads.{
  Writer, Caller, Threads, wrote, failed, ended, idle, Turn, by_writer, turn, schedule, started,
  writer_turn,
}
use network_tftp_tftp_hpa.Io.Writer.Threads.Turns.{Phase, io_error-ne_none, writer_turn-Phase}
use network_tftp_tftp_hpa.Io.Writer.Threads.Invariant.{Inv}
use network_tftp_tftp_hpa.Io.Writer.Threads.Kept.{schedule-Holds}
use network_tftp_tftp_hpa.Io.Writer.Threads.Returned.{sent}
use network_tftp_tftp_hpa.Io.Writer.Threads.Exact.{started-Holds}

-- Within `bound` turns of writer_thread the ring is empty, or there is an error.
abbrev pub Drains : (bound : ℕ) → Threads → Type 0
Drains bound t =
    (n : ℕ) × (n ≤ bound)
    × (((schedule (replicate n by_writer) t).io.count ≡ 0)
        ⊎ ((schedule (replicate n by_writer) t).io.error ≢ 0))

Drains-next : (bound : ℕ) (t : Threads) → Drains bound (writer_turn t) → Drains (suc bound) t
unfolding schedule turn
Drains-next bound t (n, le, h) = (suc n, omega arith, h)

Drains-now : (bound : ℕ) (t : Threads) → (t.io.count ≡ 0) ⊎ (t.io.error ≢ 0) → Drains bound t
unfolding schedule
Drains-now bound t h = (0, omega arith, h)

Drains-weaken : (bound bound' : ℕ) (t : Threads) → bound ≤ bound' → Drains bound t → Drains bound' t
Drains-weaken bound bound' t le (n, small, h) = (n, omega arith, h)

module _ (convert : Bool) (got : List ℕ) (c : Caller) where
  abbrev state : Writer → Io → Threads
  state w io = record { io = io; stopped = false; writer = w; caller = c }

  -- With `k` slots or fewer left, this many turns do from each place.
  abbrev WaitsFor : (k : ℕ) → Type 0
  WaitsFor k =
      (io : Io)
      → Phase convert got false Writer.waiting io
      → io.count ≡ k
      → Drains (3 * k) (state Writer.waiting io)

  error_ends : (io : Io) (e : ℕ) → Drains 1 (state (failed e) io)
  unfolding writer_turn
  error_ends io e =
      Drains-next 0 (state (failed e) io) (Drains-now 0 _ (inr (io_error-ne_none io e)))

  -- A turn of writer_thread that comes out at `u`.
  Drains-to :
      (bound : ℕ) (t u : Threads) → writer_turn t ≡ u → Drains bound u → Drains (suc bound) t
  Drains-to bound t u e d = Drains-next bound t (subst (Drains bound) (sym e) d)

  module _ (k : ℕ) (later : WaitsFor k) where
    wrote-Drains :
        (io : Io)
        → Phase convert got false wrote io
        → io.count ≡ suc k
        → Drains (suc (3 * k)) (state wrote io)
    unfolding writer_turn
    wrote-Drains io p n =
        Drains-next (3 * k) (state wrote io)
          (later (advance io) (writer_turn-Phase convert got io false wrote c p) (omega arith))

    writing-Drains :
        (io : Io) (slot m : ℕ)
        → Phase convert got false (Writer.writing slot m) io
        → io.count ≡ suc k
        → Drains (suc (suc (3 * k))) (state (Writer.writing slot m) io)
    unfolding writer_turn
    writing-Drains io slot m p n =
        elim (Answer-cases (write_bytes (io_packet io slot).payload m io)) [
          | inl (u, io', e) ↦
              let step : writer_turn (state (Writer.writing slot m) io) ≡ state wrote io' =
                ground (arith, e) in
              let q = writer_turn-Phase convert got io false (Writer.writing slot m) c p in
              let kept = Written.frame (write_bytes-Written _ _ io io' e) in
              Drains-to (suc (3 * k)) (state (Writer.writing slot m) io) (state wrote io') step (
                wrote-Drains io'
                  (subst (λ (t : Threads). Phase convert got t.stopped t.writer t.io) step q)
                  (ap Io.count kept ∙ n))
          | inr (x, io', e) ↦
              let step : writer_turn (state (Writer.writing slot m) io) ≡ state (failed x) io' =
                ground (arith, e) in
              Drains-weaken 2 (suc (suc (3 * k))) (state (Writer.writing slot m) io) (omega arith) (
                Drains-to 1 (state (Writer.writing slot m) io) (state (failed x) io') step
                  (error_ends io' x))
        ]

    waiting-Drains :
        (io : Io)
        → Phase convert got false Writer.waiting io
        → io.count ≡ suc k
        → Drains (3 * suc k) (state Writer.waiting io)
    unfolding writer_turn
    waiting-Drains io p n = elim (Bool-cases (io.error == 0)) [
      | inr bad ↦ Drains-now (3 * suc k) (state Writer.waiting io) (inr (λ z. ground arith))
      | inl good ↦
          let full : is_ready (state_of io io.head) ≡ true =
            ap is_ready (p.0.first (omega arith)) in
          let step : writer_turn (state Writer.waiting io)
              ≡ state (Writer.writing io.head (get_or io.lengths io.head 0)) (start_writing io) =
            rw (good, full, writer_turn) refl in
          let q = writer_turn-Phase convert got io false Writer.waiting c p in
          Drains-weaken (suc (suc (suc (3 * k)))) (3 * suc k) (state Writer.waiting io)
            (omega arith)
            (Drains-to (suc (suc (3 * k))) (state Writer.waiting io)
              (state (Writer.writing io.head (get_or io.lengths io.head 0)) (start_writing io)) step
              (writing-Drains (start_writing io) io.head (get_or io.lengths io.head 0)
                (subst (λ (t : Threads). Phase convert got t.stopped t.writer t.io) step q) n))
    ]

  waits_for : (k : ℕ) → WaitsFor k
  waits_for zero io p n = Drains-now 0 (state Writer.waiting io) (inl n)
  waits_for (suc k) io p n = waiting-Drains k (waits_for k) io p n

  -- From any place.
  Phase-Drains :
      (w : Writer) (io : Io) → Phase convert got false w io → Drains (3 * io.count) (state w io)
  Phase-Drains w io p = elim (ℕ_discrete io.count 0) [
    | yes none ↦ Drains-now (3 * io.count) (state w io) (inl none)
    | no more ↦ from_place w (io.count - 1) p (omega arith)
  ]
    where
      from_place :
          (v : Writer) (k : ℕ)
          → Phase convert got false v io
          → io.count ≡ suc k
          → Drains (3 * io.count) (state v io)
      from_place Writer.waiting k p' n = waits_for io.count io p' refl
      from_place (Writer.writing slot m) k p' n =
          Drains-weaken (suc (suc (3 * k))) (3 * io.count) (state (Writer.writing slot m) io)
            (omega arith) (writing-Drains k (waits_for k) io slot m p' n)
      from_place wrote k p' n =
          Drains-weaken (suc (3 * k)) (3 * io.count) (state wrote io) (omega arith)
            (wrote-Drains k (waits_for k) io p' n)
      from_place (failed e) k p' n =
          Drains-weaken 1 (3 * io.count) (state (failed e) io) (omega arith) (error_ends io e)
      from_place ended k (inl bad, r) n = Drains-now (3 * io.count) (state ended io) (inr bad)
      from_place ended k (inr on, r) n = absurd (ground arith)

-- The other thread stands between two calls, and only writer_thread takes turns from then on.
pub schedule-Drains :
    (file : Stream) (convert : Bool) (slots blocksize : ℕ) (io : Io) (ms : List Turn)
    → file.output ≡ []
    → tftp_io_writer_start file convert slots blocksize ≡ some io
    → (schedule ms (started io)).caller ≡ idle
    → Drains (3 * (schedule ms (started io)).io.count) (schedule ms (started io))
schedule-Drains file convert slots blocksize io ms e h quiet =
    let t = schedule ms (started io) in
    let got = sent ms (started io) in
    let kept =
      schedule-Holds convert [] ms (started io)
        (started-Holds file convert slots blocksize io e h) in
    let (p, on) = (subst (λ v. Inv convert got t.stopped t.writer t.io v) quiet kept) in
    let same : state convert got t.caller t.writer t.io ≡ t =
      ap (λ b. record { io = t.io; stopped = b; writer = t.writer; caller = t.caller }) (sym on) in
    subst (Drains (3 * t.io.count)) same (
      Phase-Drains convert got t.caller t.writer t.io
        (subst (λ b. Phase convert got b t.writer t.io) on p))
