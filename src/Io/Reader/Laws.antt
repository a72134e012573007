-- ===== src/Io/Reader/Laws.antt =====
-- The reading adapter as a source of a file's packets.
use network_tftp_tftp_hpa.Prelude.{
  ℕ, ◌+◌, ◌-◌, ◌<◌, ◌≡◌, refl, sym, ap, ◌∙◌, subst, inl, inr, some, List, [], ◌∷◌, length,
  length-set, get_elem?, get_or, set, arith, leb, Bool-cases,
}
use network_tftp_tftp_hpa.Packet.{Packet}
use network_tftp_tftp_hpa.Xfer.{ok}
use network_tftp_tftp_hpa.Xfer.Send.Contract.{ReadLaws}
use network_tftp_tftp_hpa.Io.{Io, io_next, io_packet}
use network_tftp_tftp_hpa.Io.Reader.{
  slot_of, tftp_io_read_packet, tftp_io_read_length, release, tftp_io_read_release, store_header,
  reader_ops,
}
use network_tftp_tftp_hpa.Io.Reader.Places.{
  get_elem?_lt, Holds, Holds-at, Holds-header, Holds-tail, slot_walk,
}
use network_tftp_tftp_hpa.Io.Writer.Ring.{walk, walk_behind, io_next-lt}
use network_tftp_tftp_hpa.Io.Reader.Window.{Filled, Lent, read_window-Lent}

-- A packet of the window, where the callbacks look for it.
at_slot :
    (w : List Packet) (rest : List (List ℕ)) (s : Io) (n : ℕ)
    → Filled w rest s
    → n < length w
    → (slot_of s n ≡ walk s.slots s.head n)
      × (get_elem? w n ≡ some (io_packet s (slot_of s n)))
      × (get_or s.lengths (slot_of s n) 0 ≡ length (io_packet s (slot_of s n)).payload + 4)
at_slot w rest s n h lt =
    let wide = h.wide in
    let bounded = h.bounded in
    let slot : slot_of s n ≡ walk s.slots s.head n =
      slot_walk s.slots s.head n h.placed (omega arith) in
    let at = Holds-at s.slots s.packets s.lengths s.head n w lt h.filled in
    (slot, rw slot at.0, rw slot at.1)

pub read_packet-Lent :
    (w : List Packet) (rest : List (List ℕ)) (s s' : Io) (n : ℕ) (p : Packet)
    → Lent w rest s
    → tftp_io_read_packet n s ≡ ok p s'
    → Lent w rest s' × (get_elem? w n ≡ some p)
unfolding tftp_io_read_packet
read_packet-Lent w rest s s' n p h e = elim (Bool-cases (leb s.held n)) [
  | inl above ↦ absurd (ground arith)
  | inr below ↦
      let held = h.1 in
      let lt : n < length w = ground (arith, below, held) in
      let at = at_slot w rest s n h.0 lt in
      let same : s ≡ s' = ground (arith, below) in
      let found : io_packet s (slot_of s n) ≡ p = ground (arith, below) in
      (subst (Lent w rest) same h, at.1 ∙ ap some found)
]

pub read_length-Lent :
    (w : List Packet) (rest : List (List ℕ)) (s : Io) (n : ℕ) (p : Packet)
    → Lent w rest s
    → get_elem? w n ≡ some p
    → tftp_io_read_length n s ≡ ok (length p.payload + 4) s
unfolding tftp_io_read_length
read_length-Lent w rest s n p h e =
    let lt = get_elem?_lt w n e in
    let held = h.1 in
    let at = at_slot w rest s n h.0 lt in
    let same : io_packet s (slot_of s n) ≡ p = ground (arith, at.1) in
    let size = at.2 ∙ ap (λ (r : Packet). length r.payload + 4) same in ground (arith, size)

pub store_header-Lent :
    (w : List Packet) (rest : List (List ℕ)) (s : Io) (n opcode block : ℕ) (p : Packet)
    → Lent w rest s
    → get_elem? w n ≡ some p
    → Lent
        (set w n (record p { opcode = opcode; block = block }))
        rest
        (store_header n opcode block s)
unfolding store_header
store_header-Lent w rest s n opcode block p (h, held) e =
    let lt = get_elem?_lt w n e in
    let at = at_slot w rest s n h lt in
    let same : io_packet s (slot_of s n) ≡ p = ground (arith, at.1) in
    let q : Packet = record p { opcode = opcode; block = block } in
    let q' : Packet = record (io_packet s (slot_of s n)) { opcode = opcode; block = block } in
    let size : length (set w n q) ≡ length w = length-set w n q in
    let sized = h.packets_sized in
    let wide = h.wide in
    let bounded = h.bounded in
    let stored : set s.packets (slot_of s n) q' ≡ set s.packets (walk s.slots s.head n) q =
      ap (λ i. set s.packets i q') at.0
      ∙ ap
          (λ (r : Packet).
            set s.packets (walk s.slots s.head n) (record r { opcode = opcode; block = block }))
          same in
    (
      record {
        packets_sized = length-set s.packets (slot_of s n) q' ∙ h.packets_sized;
        lengths_sized = h.lengths_sized;
        wide = h.wide;
        placed = h.placed;
        counted = h.counted ∙ sym size;
        bounded = omega (arith, size);
        behind = h.behind ∙ ap (walk s.slots s.head) (sym size);
        clean = h.clean;
        filled =
            subst (λ ps. Holds s.slots ps s.lengths s.head (set w n q)) (sym stored)
              (Holds-header s.slots s.packets s.lengths s.head n w p q h.placed h.packets_sized
                (omega arith) e refl h.filled);
        source = h.source;
      },
      held ∙ sym size,
    )

release-Filled :
    (w : List Packet) (rest : List (List ℕ)) (s : Io)
    → Filled w rest s
    → Filled [] rest (release (length w) s)
unfolding release
release-Filled [] rest s h = h
release-Filled (p ∷ w) rest s h =
    let s' : Io = record s {
      head = io_next s.slots s.head;
      count = s.count - 1;
      held = s.held - 1;
    } in
    let counted = h.counted in
    let bounded = h.bounded in
    release-Filled w rest s' (record {
      packets_sized = h.packets_sized;
      lengths_sized = h.lengths_sized;
      wide = h.wide;
      placed = io_next-lt s.slots s.head h.placed;
      counted = omega arith;
      bounded = omega arith;
      behind = h.behind ∙ sym (walk_behind s.slots s.head (length w));
      clean = h.clean;
      filled = Holds-tail s.slots s.packets s.lengths s.head p w h.filled;
      source = h.source;
    })

pub read_release-Filled :
    (w : List Packet) (rest : List (List ℕ)) (s : Io)
    → Lent w rest s
    → Filled [] rest (tftp_io_read_release s)
unfolding tftp_io_read_release
read_release-Filled w rest s (h, held) =
    subst (λ n. Filled [] rest (release n s)) (sym held) (release-Filled w rest s h)

-- The reading adapter meets the transfer engine's contract.
abbrev pub reader_laws : ReadLaws reader_ops
reader_laws = record {
  Feeds = Filled [];
  Lends = Lent;
  window = read_window-Lent;
  packet = read_packet-Lent;
  size = read_length-Lent;
  header = store_header-Lent;
  release = read_release-Filled;
}
