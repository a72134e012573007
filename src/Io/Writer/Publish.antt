-- ===== src/Io/Writer/Publish.antt =====
-- tftp_io_writer_reserve and tftp_io_write_publish keep the ring and append to what it holds.
use native.Mathlib.Decide.{dec_lt}
use network_tftp_tftp_hpa.Prelude.{
  ℕ, ◌+◌, ◌≤◌, ◌<◌, ◌≡◌, ◌≢◌, sym, ap, ap₂, ◌∙◌, Bool, false, List, ◌++◌, append_assoc, arith,
  length, length-set, take, take-length, get_or, set, get_or-set_self, get_or-set_ne,
}
use network_tftp_tftp_hpa.Packet.{Packet}
use network_tftp_tftp_hpa.Xfer.{ok}
use network_tftp_tftp_hpa.Io.{Io, empty, reserved, ready, blank, io_next, io_packet}
use network_tftp_tftp_hpa.Io.Codec.Decode.Spec.{rendered, held_cr}
use network_tftp_tftp_hpa.Io.Writer.{state_of, tftp_io_writer_reserve, tftp_io_write_publish}
use network_tftp_tftp_hpa.Io.Writer.Ring.{
  walk, walk-zero, walk_round, walk-ne, walk-lt, walk-suc, gather, gather-suc, gather-agree,
}

-- The published slots are the `count` slots from the head on, and the tail stands behind them.
pub record IsRing (io : Io) : Type 0 where
  pub head_in : io.head < io.slots
  pub count_in : io.count ≤ io.slots
  pub tail_at : io.tail ≡ walk io.slots io.head io.count
  pub packets_length : length io.packets ≡ io.slots
  pub lengths_length : length io.lengths ≡ io.slots
  pub states_length : length io.states ≡ io.slots
  pub published : (k : ℕ) → k < io.count → state_of io (walk io.slots io.head k) ≡ ready

-- the data bytes in a slot
abbrev pub slot_bytes : Io → ℕ → List ℕ
slot_bytes io i = take (get_or io.lengths i 0) (get_or io.packets i blank).payload

abbrev pub waiting : Io → List ℕ
waiting io = gather io.slots (slot_bytes io) io.head io.count

-- `got` was published: a part of it has been written, and the rest waits in the ring.
pub record Accepts (convert : Bool) (got : List ℕ) (io : Io) : Type 0 where
  pub ring : IsRing io
  pub mode : io.convert ≡ convert
  pub flushed : List ℕ
  pub output : io.file.output ≡ rendered convert false flushed
  pub cr : io.write_cr ≡ held_cr convert false flushed
  pub split : got ≡ flushed ++ waiting io

-- A slot that is not ready is not among the published ones, so there is room at the tail.
room_at_tail : (io : Io) → IsRing io → state_of io io.tail ≢ ready → io.count < io.slots
room_at_tail io r ne = elim (dec_lt io.count io.slots) [
  | yes room ↦ room
  | no full ↦ absurd (
      ne (
        ap (state_of io) (
          r.tail_at
          ∙ walk_round io.slots io.head io.count r.head_in (omega arith)
          ∙ sym (walk-zero io.slots io.head))
        ∙ r.published 0 (omega (arith, r.head_in))))
]

tail-ne :
    (io : Io)
    → IsRing io
    → io.count < io.slots
    → (k : ℕ) → k < io.count
    → io.tail ≢ walk io.slots io.head k
tail-ne io r room k lt e =
    walk-ne io.slots io.head r.head_in r.count_in lt (omega arith) (sym e ∙ r.tail_at)

tail-lt : (io : Io) → IsRing io → io.tail < io.slots
tail-lt io r = omega (arith, r.tail_at, walk-lt io.slots io.head io.count r.head_in r.count_in)

reserve-IsRing :
    (io : Io)
    → IsRing io
    → io.count < io.slots
    → IsRing (record io { states = set io.states io.tail reserved })
reserve-IsRing io r room = record {
  head_in = r.head_in;
  count_in = r.count_in;
  tail_at = r.tail_at;
  packets_length = r.packets_length;
  lengths_length = r.lengths_length;
  states_length = length-set io.states io.tail reserved ∙ r.states_length;
  published = λ k lt.
      get_or-set_ne io.states _ _ reserved empty (tail-ne io r room k lt) ∙ r.published k lt;
}

pub reserve-Accepts :
    (convert : Bool) (got : List ℕ) (io io' : Io)
    → Accepts convert got io
    → tftp_io_writer_reserve io ≡ ok tt io'
    → Accepts convert got io'
unfolding tftp_io_writer_reserve
reserve-Accepts convert got io io' a h = rw (← reserved_state) (record {
  ring = reserve-IsRing io a.ring (room_at_tail io a.ring not_ready);
  mode = a.mode;
  flushed = a.flushed;
  output = a.output;
  cr = a.cr;
  split = a.split;
})
  where
    reserved_state : record io { states = set io.states io.tail reserved } ≡ io'
    reserved_state = ground arith

    not_ready : state_of io io.tail ≢ ready
    not_ready = ground arith

-- The state after a successful publication.
abbrev pub published_state : List ℕ → Io → Io
published_state d io = record io {
  packets = set io.packets io.tail (record (io_packet io io.tail) { payload = d });
  lengths = set io.lengths io.tail (length d);
  states = set io.states io.tail ready;
  tail = io_next io.slots io.tail;
  count = io.count + 1;
}

publish-IsRing :
    (d : List ℕ) (io : Io) → IsRing io → io.count < io.slots → IsRing (published_state d io)
publish-IsRing d io r room = record {
  head_in = r.head_in;
  count_in = omega arith;
  tail_at =
      ap (io_next io.slots) r.tail_at
      ∙ walk-suc io.slots io.head io.count
      ∙ ap (walk io.slots io.head) (omega arith);
  packets_length = length-set io.packets io.tail _ ∙ r.packets_length;
  lengths_length = length-set io.lengths io.tail _ ∙ r.lengths_length;
  states_length = length-set io.states io.tail ready ∙ r.states_length;
  published = λ k lt. elim (dec_lt k io.count) [
    | yes old ↦
        get_or-set_ne io.states _ _ ready empty (tail-ne io r room k old) ∙ r.published k old
    | no new ↦
        ap (λ i. get_or (set io.states io.tail ready) i empty)
          (ap (walk io.slots io.head) (omega arith) ∙ sym r.tail_at)
        ∙ get_or-set_self io.states io.tail ready empty
            (omega (arith, tail-lt io r, r.states_length))
  ];
}

-- The published bytes are the last that wait.
pub waiting-publish :
    (d : List ℕ) (io : Io)
    → IsRing io
    → io.count < io.slots
    → waiting (published_state d io) ≡ waiting io ++ d
waiting-publish d io r room =
    ap (gather io.slots (slot_bytes io') io.head) (omega arith)
    ∙ gather-suc io.slots (slot_bytes io') io.head io.count
    ∙ ap₂ (λ a b. a ++ b) (gather-agree io.slots _ _ io.head io.count old) new
  where
    io' : Io
    io' = published_state d io

    old :
        (k : ℕ)
        → k < io.count
        → slot_bytes io' (walk io.slots io.head k) ≡ slot_bytes io (walk io.slots io.head k)
    old k lt =
        ap₂ (λ n (p : Packet). take n p.payload)
          (get_or-set_ne io.lengths _ _ (length d) 0 (tail-ne io r room k lt))
          (get_or-set_ne io.packets _ _ _ blank (tail-ne io r room k lt))

    new : slot_bytes io' (walk io.slots io.head io.count) ≡ d
    new =
        ap (slot_bytes io') (sym r.tail_at)
        ∙ ap₂ (λ n (p : Packet). take n p.payload)
            (get_or-set_self io.lengths io.tail (length d) 0
              (omega (arith, tail-lt io r, r.lengths_length)))
            (get_or-set_self io.packets io.tail _ blank
              (omega (arith, tail-lt io r, r.packets_length)))
        ∙ take-length d

pub publish-Accepts :
    (convert : Bool) (got d : List ℕ) (io io' : Io)
    → Accepts convert got io
    → tftp_io_write_publish d io ≡ ok tt io'
    → Accepts convert (got ++ d) io'
unfolding tftp_io_write_publish
publish-Accepts convert got d io io' a h = rw (← state) (record {
  ring = publish-IsRing d io a.ring room;
  mode = a.mode;
  flushed = a.flushed;
  output = a.output;
  cr = a.cr;
  split =
      ap (λ g. g ++ d) a.split
      ∙ append_assoc a.flushed (waiting io) d
      ∙ ap (λ w. a.flushed ++ w) (sym (waiting-publish d io a.ring room));
})
  where
    state : published_state d io ≡ io'
    state = ground arith

    not_ready : state_of io io.tail ≢ ready
    not_ready = ground arith

    room : io.count < io.slots
    room = room_at_tail io a.ring not_ready
