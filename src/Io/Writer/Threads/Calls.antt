-- ===== src/Io/Writer/Threads/Calls.antt =====
-- What the calls of the other thread keep, whatever writer_thread is doing.
use network_tftp_tftp_hpa.Prelude.{
  ℕ, ◌+◌, ◌<◌, ◌≡◌, ◌⊎◌, inl, inr, refl, sym, ap, ◌∙◌, Bool, true, false, List, [], ◌++◌,
  append-nil, append_assoc, arith, length, set, get_or-set_ne,
}
use network_tftp_tftp_hpa.Io.{Io, SlotState, reserved, ready, io_packet, io_next}
use network_tftp_tftp_hpa.Io.Writer.{state_of, is_empty, is_reserved}
use network_tftp_tftp_hpa.Io.Writer.Publish.{waiting}
use network_tftp_tftp_hpa.Io.Writer.Threads.{Writer, wrote, failed, ended, store}
use network_tftp_tftp_hpa.Io.Writer.Threads.Held.{
  Held, is_busy, Held-room, reserve-Held, store-Held, publish-Held, tail_ne_head,
}
use network_tftp_tftp_hpa.Io.Writer.Threads.Bytes.{
  store-waiting, store-head, publish-waiting, publish-head,
}
use network_tftp_tftp_hpa.Io.Writer.Threads.Turns.{Keeps, Phase}

-- `g` is published as well, by a change that leaves the file alone.
Keeps-next :
    (convert : Bool) (got g : List ℕ) {extra extra' : List ℕ} (io io' : Io)
    → io'.convert ≡ io.convert
    → io'.file ≡ io.file
    → io'.write_cr ≡ io.write_cr
    → waiting io' ≡ waiting io ++ g
    → extra ≡ extra'
    → Keeps convert got extra io
    → Keeps convert (got ++ g) extra' io'
Keeps-next convert got g io io' m f c w e a = rw (← e) (record {
  mode = m ∙ a.mode;
  flushed = a.flushed;
  output = ap (λ s. s.output) f ∙ a.output;
  cr = c ∙ a.cr;
  split =
      ap (λ l. l ++ g) a.split
      ∙ append_assoc a.flushed (waiting io) g
      ∙ ap (λ l. a.flushed ++ l) (sym w);
})

not_busy_empty : (s : SlotState) → is_empty s ≡ true → is_busy s ≡ false
not_busy_empty s h = ground arith

not_busy_reserved : (s : SlotState) → is_reserved s ≡ true → is_busy s ≡ false
not_busy_reserved s h = ground arith

module _ (convert : Bool) (got : List ℕ) (stopped : Bool) (io : Io) where
  -- The ring and the file, for a busy state of the head's slot.
  abbrev Both : SlotState → (got extra : List ℕ) → Io → Type 0
  Both front got' extra io' = Held front io' × Keeps convert got' extra io'

  abbrev reserved_state : Io
  reserved_state = record io { states = set io.states io.tail reserved }

  abbrev pub published_io : (d : List ℕ) → Io
  published_io d = record io {
    lengths = set io.lengths io.tail (length d);
    states = set io.states io.tail ready;
    tail = io_next io.slots io.tail;
    count = io.count + 1;
  }

  module _ {front : SlotState} {extra : List ℕ} (busy : is_busy front ≡ true)
      (b : Both front got extra io) where
    reserve-Both :
        is_empty (state_of io io.tail) ≡ true → Both front (got ++ []) extra reserved_state
    reserve-Both h = (
      reserve-Held io b.0 (Held-room io b.0 busy (not_busy_empty _ h)),
      Keeps-next convert got [] io reserved_state refl refl refl (sym (append-nil (waiting io)))
          refl b.1,
    )

    reserved-room : is_reserved (state_of io io.tail) ≡ true → io.count < io.slots
    reserved-room h = Held-room io b.0 busy (not_busy_reserved _ h)

    store-Both :
        {extra' : List ℕ} (d : List ℕ)
        → is_reserved (state_of io io.tail) ≡ true
        → extra ≡ extra'
        → Both front (got ++ []) extra' (store io.tail d io)
    store-Both d h e = (
      store-Held io b.0 d,
      Keeps-next convert got [] io (store io.tail d io) refl refl refl
          (store-waiting io b.0 d (reserved-room h) ∙ sym (append-nil (waiting io))) e b.1,
    )

    publish-Both :
        {extra' : List ℕ} (d : List ℕ)
        → is_reserved (state_of io io.tail) ≡ true
        → (io_packet io io.tail).payload ≡ d
        → (0 < io.count) ⊎ (front ≡ ready)
        → extra ≡ extra'
        → Both front (got ++ d) extra' (published_io d)
    publish-Both d h copied at_front e = (
      publish-Held io b.0 (length d) (reserved-room h) at_front,
      Keeps-next convert got d io (published_io d) refl refl refl
          (publish-waiting io b.0 d (reserved-room h) copied) e b.1,
    )

  pub reserve-Phase :
      (w : Writer)
      → is_empty (state_of io io.tail) ≡ true
      → Phase convert got stopped w io
      → Phase convert (got ++ []) stopped w reserved_state
  reserve-Phase Writer.waiting h b = reserve-Both refl b h
  reserve-Phase (Writer.writing slot n) h (e, e', some_left, r, a) =
      let (r', a') = reserve-Both refl (r, a) h in (e, e', some_left, r', a')
  reserve-Phase wrote h (some_left, r, a) =
      let (r', a') = reserve-Both refl (r, a) h in (some_left, r', a')
  reserve-Phase (failed e) h (some_left, r) =
      (some_left, reserve-Held io r (Held-room io r refl (not_busy_empty _ h)))
  reserve-Phase ended h (over, (front, busy, at_front, r)) =
      (over, (front, busy, at_front, reserve-Held io r (Held-room io r busy (not_busy_empty _ h))))

  pub store-Phase :
      (w : Writer) (d : List ℕ)
      → is_reserved (state_of io io.tail) ≡ true
      → Phase convert got stopped w io
      → Phase convert (got ++ []) stopped w (store io.tail d io)
  store-Phase Writer.waiting d h b = store-Both refl b d h refl
  store-Phase (Writer.writing slot n) d h (e, e', some_left, r, a) =
      let (r', a') = store-Both refl (r, a) d h refl in (e, e', some_left, r', a')
  store-Phase wrote d h (some_left, r, a) =
      let room = reserved-room refl (r, a) h in
      let (r', a') = store-Both refl (r, a) d h (sym (store-head io r d room some_left)) in
      (some_left, r', a')
  store-Phase (failed e) d h (some_left, r) = (some_left, store-Held io r d)
  store-Phase ended d h (over, (front, busy, at_front, r)) =
      (over, (front, busy, at_front, store-Held io r d))

  pub publish-Phase :
      (w : Writer) (d : List ℕ)
      → is_reserved (state_of io io.tail) ≡ true
      → (io_packet io io.tail).payload ≡ d
      → Phase convert got stopped w io
      → Phase convert (got ++ d) stopped w (published_io d)
  publish-Phase Writer.waiting d h copied b = publish-Both refl b d h copied (inr refl) refl
  publish-Phase (Writer.writing slot n) d h copied (e, e', some_left, r, a) =
      let room = reserved-room refl (r, a) h in
      let length_kept =
        get_or-set_ne io.lengths _ _ (length d) 0 (tail_ne_head io r room some_left) in
      let (r', a') = publish-Both refl (r, a) d h copied (inl some_left) refl in
      (e, e' ∙ sym length_kept, omega arith, r', a')
  publish-Phase wrote d h copied (some_left, r, a) =
      let room = reserved-room refl (r, a) h in
      let (r', a') =
        publish-Both refl (r, a) d h copied (inl some_left)
          (sym (publish-head io r (length d) room some_left)) in
      (omega arith, r', a')
  publish-Phase (failed e) d h copied (some_left, r) =
      let room = Held-room io r refl (not_busy_reserved _ h) in
      (omega arith, publish-Held io r (length d) room (inl some_left))
  publish-Phase ended d h copied (over, (front, busy, at_front, r)) =
      let room = Held-room io r busy (not_busy_reserved _ h) in
      (over, (front, busy, inl (omega arith), publish-Held io r (length d) room at_front))
