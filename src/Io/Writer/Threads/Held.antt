-- ===== src/Io/Writer/Threads/Held.antt =====
-- The ring while two threads use it: which slots are theirs, and what is in the others.
use native.Mathlib.Decide.{dec_lt, ℕ_discrete}
use network_tftp_tftp_hpa.Prelude.{
  ℕ, suc, ◌+◌, ◌≤◌, ◌<◌, ◌≡◌, ◌≢◌, ◌⊎◌, inl, inr, sym, ap, ◌∙◌, subst, Bool, true, false, List,
  arith, length, length-set, get_or, set, get_or-set_self, get_or-set_ne,
}
use network_tftp_tftp_hpa.Io.{Io, SlotState, empty, reserved, ready, writing, io_next}
use network_tftp_tftp_hpa.Io.Writer.{state_of}
use network_tftp_tftp_hpa.Io.Writer.Ring.{walk, walk-zero, walk_round, walk-ne, walk-lt, walk-suc}
use network_tftp_tftp_hpa.Io.Writer.Threads.{store}

abbrev pub is_busy : SlotState → Bool
is_busy ready = true
is_busy writing = true
is_busy _ = false

-- The `count` slots from the head on are published: the first one is in the state `front`, and the
-- others are ready. No other slot is.
pub record Held (front : SlotState) (io : Io) : Type 0 where
  pub head_in : io.head < io.slots
  pub count_in : io.count ≤ io.slots
  pub tail_at : io.tail ≡ walk io.slots io.head io.count
  pub packets_length : length io.packets ≡ io.slots
  pub lengths_length : length io.lengths ≡ io.slots
  pub states_length : length io.states ≡ io.slots
  pub first : 0 < io.count → state_of io io.head ≡ front
  pub others : (k : ℕ) → suc k < io.count → state_of io (walk io.slots io.head (suc k)) ≡ ready
  pub free :
      (k : ℕ)
      → io.count ≤ k
      → k < io.slots
      → is_busy (state_of io (walk io.slots io.head k)) ≡ false

walk_apart :
    (slots h j k : ℕ) → h < slots → j < slots → k < slots → j ≢ k → walk slots h j ≢ walk slots h k
walk_apart slots h j k hh hj hk ne e = elim (dec_lt j k) [
  | yes lt ↦ walk-ne slots h {j = j} {k = k} hh (omega arith) lt (omega arith) e
  | no ge ↦ walk-ne slots h {j = k} {k = j} hh (omega arith) (ground arith) (omega arith) (sym e)
]

module _ {front : SlotState} (io : Io) (r : Held front io) where
  -- A slot at the tail that is not busy: there is room.
  pub Held-room : is_busy front ≡ true → is_busy (state_of io io.tail) ≡ false → io.count < io.slots
  Held-room busy idle_tail = elim (dec_lt io.count io.slots) [
    | yes room ↦ room
    | no full ↦
        let at_head : io.tail ≡ io.head =
          r.tail_at ∙ walk_round io.slots io.head io.count r.head_in (omega (arith, r.count_in)) in
        let there : state_of io io.tail ≡ front =
          ap (state_of io) at_head ∙ r.first (omega (arith, r.head_in, r.count_in)) in
        absurd (cc)
  ]

  pub tail_in : io.tail < io.slots
  tail_in = omega (arith, r.tail_at, walk-lt io.slots io.head io.count r.head_in r.count_in)

  pub tail_apart :
      io.count < io.slots
      → (k : ℕ) → k < io.slots
      → k ≢ io.count
      → io.tail ≢ walk io.slots io.head k
  tail_apart room k lt ne e =
      walk_apart io.slots io.head k io.count r.head_in lt room ne (sym e ∙ r.tail_at)

  pub head_apart : (k : ℕ) → suc k < io.slots → io.head ≢ walk io.slots io.head (suc k)
  head_apart k lt e =
      walk_apart io.slots io.head 0 (suc k) r.head_in (omega (arith, r.head_in)) lt (omega arith)
        (walk-zero io.slots io.head ∙ e)

  pub tail_ne_head : io.count < io.slots → 0 < io.count → io.tail ≢ io.head
  tail_ne_head room some_left e =
      tail_apart room 0 (omega arith) (omega arith) (e ∙ sym (walk-zero io.slots io.head))

  state-tail : (v : SlotState) → get_or (set io.states io.tail v) io.tail empty ≡ v
  state-tail v = get_or-set_self io.states io.tail v empty (omega (arith, tail_in, r.states_length))

  -- tftp_io_writer_reserve
  pub reserve-Held :
      io.count < io.slots → Held front (record io { states = set io.states io.tail reserved })
  reserve-Held room = record {
    head_in = r.head_in;
    count_in = r.count_in;
    tail_at = r.tail_at;
    packets_length = r.packets_length;
    lengths_length = r.lengths_length;
    states_length = length-set io.states io.tail reserved ∙ r.states_length;
    first = λ lt. get_or-set_ne io.states _ _ reserved empty (tail_ne_head room lt) ∙ r.first lt;
    others = λ k lt.
        get_or-set_ne io.states _ _ reserved empty
          (tail_apart room (suc k) (omega (arith, r.count_in)) (omega arith))
        ∙ r.others k lt;
    free = λ k le lt. elim (ℕ_discrete k io.count) [
      | yes e ↦
          let here : io.tail ≡ walk io.slots io.head k =
            r.tail_at ∙ ap (walk io.slots io.head) (sym e) in
          subst (λ i. is_busy (get_or (set io.states io.tail reserved) i empty) ≡ false) here
            (ap is_busy (state-tail reserved))
      | no ne ↦
          ap is_busy (get_or-set_ne io.states _ _ reserved empty (tail_apart room k lt ne))
          ∙ r.free k le lt
    ];
  }

  -- memcpy() into the slot at the tail
  pub store-Held : (d : List ℕ) → Held front (store io.tail d io)
  store-Held d = record {
    head_in = r.head_in;
    count_in = r.count_in;
    tail_at = r.tail_at;
    packets_length = length-set io.packets io.tail _ ∙ r.packets_length;
    lengths_length = r.lengths_length;
    states_length = r.states_length;
    first = r.first;
    others = r.others;
    free = r.free;
  }

  -- tftp_io_write_publish of `n` bytes
  pub publish-Held :
      (n : ℕ)
      → io.count < io.slots
      → (0 < io.count) ⊎ (front ≡ ready)
      → Held front (record io {
        lengths = set io.lengths io.tail n;
        states = set io.states io.tail ready;
        tail = io_next io.slots io.tail;
        count = io.count + 1;
      })
  publish-Held n room at_front = record {
    head_in = r.head_in;
    count_in = omega arith;
    tail_at =
        ap (io_next io.slots) r.tail_at
        ∙ walk-suc io.slots io.head io.count
        ∙ ap (walk io.slots io.head) (omega arith);
    packets_length = r.packets_length;
    lengths_length = length-set io.lengths io.tail n ∙ r.lengths_length;
    states_length = length-set io.states io.tail ready ∙ r.states_length;
    first = λ lt. elim (dec_lt 0 io.count) [
      | yes some_left ↦
          get_or-set_ne io.states _ _ ready empty (tail_ne_head room some_left) ∙ r.first some_left
      | no none_left ↦ elim at_front [
        | inl some_left ↦ absurd (none_left some_left)
        | inr e ↦
            new_state io.head
              (sym (walk-zero io.slots io.head) ∙ ap (walk io.slots io.head) (omega arith))
            ∙ sym e
      ]
    ];
    others = λ k lt. elim (ℕ_discrete (suc k) io.count) [
      | yes e ↦ new_state (walk io.slots io.head (suc k)) (ap (walk io.slots io.head) e)
      | no ne ↦
          get_or-set_ne io.states _ _ ready empty (tail_apart room (suc k) (omega arith) ne)
          ∙ r.others k (omega arith)
    ];
    free = λ k le lt.
        ap is_busy (get_or-set_ne io.states _ _ ready empty (tail_apart room k lt (omega arith)))
        ∙ r.free k (omega arith) lt;
  }
    where
      new_state :
          (i : ℕ)
          → i ≡ walk io.slots io.head io.count
          → get_or (set io.states io.tail ready) i empty ≡ ready
      new_state i e =
          ap (λ j. get_or (set io.states io.tail ready) j empty) (e ∙ sym r.tail_at)
          ∙ state-tail ready
