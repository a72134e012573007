-- ===== src/Io/Writer/Threads/Marks.antt =====
-- The states of the slots when writer_thread takes one, and gives it back.
use native.Mathlib.Decide.{dec_lt}
use network_tftp_tftp_hpa.Prelude.{
  ℕ, zero, suc, ◌-◌, ◌≤◌, ◌<◌, ◌≡◌, ◌⊎◌, inl, inr, sym, ap, ◌∙◌, subst, Bool, true, false, arith,
  length-set, get_or-set_self, get_or-set_ne, ◌==◌, Bool-cases,
}
use network_tftp_tftp_hpa.Stdio.{Stream}
use network_tftp_tftp_hpa.Io.{Io, SlotState, empty, ready, writing, io_error}
use network_tftp_tftp_hpa.Io.Writer.{state_of, is_ready, advance, start_writing}
use network_tftp_tftp_hpa.Io.Writer.Ring.{walk, walk-zero, walk_round, walk_behind, io_next-lt}
use network_tftp_tftp_hpa.Io.Writer.Threads.Held.{Held, is_busy, head_apart}

-- The ring, whatever the state of the slot at its head is.
abbrev pub Placed : Io → Type 0
Placed io =
    (front : SlotState) × (is_busy front ≡ true)
    × ((0 < io.count) ⊎ (front ≡ ready))
    × Held front io

module _ (io : Io) where
  -- A slot that is ready at the head is published.
  pub ready-some_left : Held ready io → is_ready (state_of io io.head) ≡ true → 0 < io.count
  ready-some_left r h = elim (dec_lt 0 io.count) [
    | yes lt ↦ lt
    | no none_left ↦
        let shut =
          subst (λ i. is_busy (state_of io i) ≡ false) (walk-zero io.slots io.head)
            (r.free 0 (omega arith) (omega (arith, r.head_in))) in
        absurd (ground arith)
  ]

  pub take-Held : Held ready io → 0 < io.count → Held writing (start_writing io)
  take-Held r some_left = record {
    head_in = r.head_in;
    count_in = r.count_in;
    tail_at = r.tail_at;
    packets_length = r.packets_length;
    lengths_length = r.lengths_length;
    states_length = length-set io.states io.head writing ∙ r.states_length;
    first = λ lt.
        get_or-set_self io.states io.head writing empty (omega (arith, r.head_in, r.states_length));
    others = λ k lt.
        get_or-set_ne io.states _ _ writing empty (head_apart io r k (omega (arith, r.count_in)))
        ∙ r.others k lt;
    free = free;
  }
    where
      free :
          (k : ℕ)
          → io.count ≤ k
          → k < io.slots
          → is_busy (state_of (start_writing io) (walk io.slots io.head k)) ≡ false
      free zero le lt = absurd (omega arith)
      free (suc k) le lt =
          ap is_busy (get_or-set_ne io.states _ _ writing empty (head_apart io r k lt))
          ∙ r.free (suc k) le lt

  pub give-Held : Held writing io → 0 < io.count → Held ready (advance io)
  give-Held r some_left = record {
    head_in = io_next-lt io.slots io.head r.head_in;
    count_in = omega (arith, r.count_in);
    tail_at =
        r.tail_at
        ∙ ap (walk io.slots io.head) (omega arith)
        ∙ sym (walk_behind io.slots io.head (io.count - 1));
    packets_length = r.packets_length;
    lengths_length = r.lengths_length;
    states_length = length-set io.states io.head empty ∙ r.states_length;
    first = λ lt.
        ap (state_of (advance io)) (sym (walk-zero io.slots _) ∙ walk_behind io.slots io.head 0)
        ∙ get_or-set_ne io.states _ _ empty empty (head_apart io r 0 (omega (arith, r.count_in)))
        ∙ r.others 0 (omega arith);
    others = λ k lt.
        ap (state_of (advance io)) (walk_behind io.slots io.head (suc k))
        ∙ get_or-set_ne io.states _ _ empty empty
            (head_apart io r (suc k) (omega (arith, r.count_in)))
        ∙ r.others (suc k) (omega arith);
    free = λ k le lt. elim (dec_lt (suc k) io.slots) [
      | yes inside ↦
          ap (λ i. is_busy (state_of (advance io) i)) (walk_behind io.slots io.head k)
          ∙ ap is_busy (get_or-set_ne io.states _ _ empty empty (head_apart io r k inside))
          ∙ r.free (suc k) (omega arith) inside
      | no round ↦
          ap (λ i. is_busy (state_of (advance io) i))
            (walk_behind io.slots io.head k
              ∙ walk_round io.slots io.head (suc k) r.head_in (omega arith))
          ∙ ap is_busy (
              get_or-set_self io.states io.head empty empty
                (omega (arith, r.head_in, r.states_length)))
    ];
  }

  -- The file changes and the ring does not.
  pub file-Held :
      {front : SlotState} (f : Stream) (cr : Bool)
      → Held front io
      → Held front (record io { file = f; write_cr = cr })
  file-Held f cr r = record {
    head_in = r.head_in;
    count_in = r.count_in;
    tail_at = r.tail_at;
    packets_length = r.packets_length;
    lengths_length = r.lengths_length;
    states_length = r.states_length;
    first = r.first;
    others = r.others;
    free = r.free;
  }

pub count_error : (io : Io) (e : ℕ) → 0 < io.count → 0 < (io_error io e).count
unfolding io_error
count_error io e h = ground arith

pub error-Held : {front : SlotState} (io : Io) (e : ℕ) → Held front io → Held front (io_error io e)
unfolding io_error
error-Held io e r = elim (Bool-cases (io.error == 0)) [
  | inl none ↦ rw none (record {
    head_in = r.head_in;
    count_in = r.count_in;
    tail_at = r.tail_at;
    packets_length = r.packets_length;
    lengths_length = r.lengths_length;
    states_length = r.states_length;
    first = r.first;
    others = r.others;
    free = r.free;
  })
  | inr old ↦ rw old r
]
