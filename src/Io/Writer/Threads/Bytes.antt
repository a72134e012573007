-- ===== src/Io/Writer/Threads/Bytes.antt =====
-- The bytes that wait in the ring while packets are copied and published.
use network_tftp_tftp_hpa.Prelude.{
  ℕ, zero, suc, ◌+◌, ◌<◌, ◌≡◌, refl, sym, ap, ◌∙◌, subst, List, [], ◌∷◌, ◌++◌, arith, length,
  length-replicate, take, get_or, set, get_or-set_ne, replicate,
}
use network_tftp_tftp_hpa.Packet.{Packet}
use network_tftp_tftp_hpa.Io.{Io, SlotState, empty, ready, blank, io_next, io_packet}
use network_tftp_tftp_hpa.Io.Writer.Ring.{walk, walk-zero, walk-lt, gather-agree}
use network_tftp_tftp_hpa.Io.Writer.Publish.{
  IsRing, slot_bytes, waiting, published_state, waiting-publish,
}
use network_tftp_tftp_hpa.Io.Writer.Threads.{store}
use network_tftp_tftp_hpa.Io.Writer.Threads.Held.{Held, tail_apart, tail_ne_head}

set-get_or : (ps : List Packet) (i : ℕ) → set ps i (get_or ps i blank) ≡ ps
set-get_or [] i = refl
set-get_or (p ∷ ps) zero = refl
set-get_or (p ∷ ps) (suc i) = ap (λ l. p ∷ l) (set-get_or ps i)

get_or-replicate : (n i : ℕ) → i < n → get_or (replicate n ready) i empty ≡ ready
get_or-replicate zero i lt = absurd (omega arith)
get_or-replicate (suc n) zero lt = refl
get_or-replicate (suc n) (suc i) lt = get_or-replicate n i (omega arith)

module _ {front : SlotState} (io : Io) (r : Held front io) where
  -- The bytes at the head, and what waits, when a slot is filled.
  store-slot_bytes :
      (d : List ℕ)
      → io.count < io.slots
      → (k : ℕ) → k < io.count
      → slot_bytes (store io.tail d io) (walk io.slots io.head k)
        ≡ slot_bytes io (walk io.slots io.head k)
  store-slot_bytes d room k lt =
      ap (λ (p : Packet). take (get_or io.lengths (walk io.slots io.head k) 0) p.payload)
        (get_or-set_ne io.packets _ _ _ blank (tail_apart io r room k (omega arith) (omega arith)))

  pub store-waiting : (d : List ℕ) → io.count < io.slots → waiting (store io.tail d io) ≡ waiting io
  store-waiting d room = gather-agree io.slots _ _ io.head io.count (store-slot_bytes d room)

  pub store-head :
      (d : List ℕ)
      → io.count < io.slots
      → 0 < io.count
      → slot_bytes (store io.tail d io) io.head ≡ slot_bytes io io.head
  store-head d room some_left =
      subst (λ i. slot_bytes (store io.tail d io) i ≡ slot_bytes io i) (walk-zero io.slots io.head)
        (store-slot_bytes d room 0 some_left)

  -- The same ring with all slots ready, of which Io/Writer/Publish speaks.
  abbrev calm : Io
  calm = record io { states = replicate io.slots ready }

  calm-IsRing : IsRing calm
  calm-IsRing = record {
    head_in = r.head_in;
    count_in = r.count_in;
    tail_at = r.tail_at;
    packets_length = r.packets_length;
    lengths_length = r.lengths_length;
    states_length = length-replicate io.slots ready;
    published = λ k lt.
        get_or-replicate io.slots _
          (walk-lt io.slots io.head k r.head_in (omega (arith, r.count_in)));
  }

  -- The bytes that were copied wait behind the others.
  pub publish-waiting :
      (d : List ℕ)
      → io.count < io.slots
      → (io_packet io io.tail).payload ≡ d
      → waiting (record io {
        lengths = set io.lengths io.tail (length d);
        states = set io.states io.tail ready;
        tail = io_next io.slots io.tail;
        count = io.count + 1;
      })
        ≡ waiting io ++ d
  publish-waiting d room copied =
      let same : set io.packets io.tail (record (io_packet io io.tail) { payload = d })
          ≡ io.packets =
        ap (λ c. set io.packets io.tail (record (io_packet io io.tail) { payload = c }))
          (sym copied)
        ∙ set-get_or io.packets io.tail in
      ap (λ ps. waiting (record (published_state d calm) { packets = ps })) (sym same)
      ∙ waiting-publish d calm calm-IsRing room

  pub publish-head :
      (n : ℕ)
      → io.count < io.slots
      → 0 < io.count
      → take (get_or (set io.lengths io.tail n) io.head 0) (io_packet io io.head).payload
        ≡ slot_bytes io io.head
  publish-head n room some_left =
      ap (λ m. take m (io_packet io io.head).payload)
        (get_or-set_ne io.lengths _ _ n 0 (tail_ne_head io r room some_left))
