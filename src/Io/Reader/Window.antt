-- ===== src/Io/Reader/Window.antt =====
-- The packets that tftp_io_read_window reads, and the window that it lends.
use network_tftp_tftp_hpa.Prelude.{
  ℕ, zero, suc, ◌+◌, ◌≤◌, ◌<◌, ◌≡◌, ◌≢◌, ◌⊎◌, refl, sym, ap, ◌∙◌, subst, inl, inr, Bool, true,
  false, not, ◌&&◌, Option, List, [], ◌∷◌, ◌++◌, append_assoc, append-nil, length, length-append,
  length-set, get_or-set_self, set, take, drop, arith, ltb, ◌==◌, if◌then◌else◌, Bool-cases,
}
use network_tftp_tftp_hpa.Packet.{Packet}
use network_tftp_tftp_hpa.Stdio.{Stream}
use network_tftp_tftp_hpa.Xfer.{ok}
use network_tftp_tftp_hpa.Xfer.Send.Contract.{payloads_of}
use network_tftp_tftp_hpa.Xfer.Send.Window.{Answer-cases}
use network_tftp_tftp_hpa.Io.{Io, io_next, io_packet, io_error, blank}
use network_tftp_tftp_hpa.Io.Codec.Encode.{read_bytes}
use network_tftp_tftp_hpa.Io.Codec.Encode.Spec.{pending, Advances, Cut, read_bytes-Cut}
use network_tftp_tftp_hpa.Io.Reader.{store_packet, fill_window, tftp_io_read_window}
use network_tftp_tftp_hpa.Io.Reader.Places.{Holds, Holds-set_ne, Holds-snoc}
use network_tftp_tftp_hpa.Io.Writer.Ring.{walk, walk-ne, walk-lt, walk-suc}

-- A text cut into blocks: all are full but the last one, which is shorter and may be empty.
abbrev pub IsCut : (blocksize : ℕ) (text : List ℕ) → List (List ℕ) → Type 0
IsCut blocksize text [] = ⊥
IsCut blocksize text (d ∷ ds) =
    (d ≡ take blocksize text)
    × (((length d ≢ blocksize) × (ds ≡ []))
        ⊎ ((length d ≡ blocksize) × IsCut blocksize (drop blocksize text) ds))

-- What is still to be read is `ds`.
abbrev pub Source : List (List ℕ) → Io → Type 0
Source ds io =
    ((io.eof ≡ true) × (ds ≡ [])) ⊎ ((io.eof ≡ false) × IsCut io.blocksize (pending io) ds)

-- The ring holds `w`, and `ds` is to come.
pub record Filled (w : List Packet) (ds : List (List ℕ)) (io : Io) : Type 0 where
  pub packets_sized : length io.packets ≡ io.slots
  pub lengths_sized : length io.lengths ≡ io.slots
  pub wide : io.window ≤ io.slots
  pub placed : io.head < io.slots
  pub counted : io.count ≡ length w
  pub bounded : length w ≤ io.window
  pub behind : io.tail ≡ walk io.slots io.head (length w)
  pub clean : io.error ≡ 0
  pub filled : Holds io.slots io.packets io.lengths io.head w
  pub source : Source ds io

-- What the loop of tftp_io_read_window leaves: an error, or more packets, and then the window is
-- full or the file is at its end.
abbrev pub Refilled : (w : List Packet) (ds : List (List ℕ)) (held : ℕ) → Io → Type 0
Refilled w ds held io =
    (io.error ≢ 0)
    ⊎ ((w' : List Packet) × (rest : List (List ℕ)) × (ds ≡ payloads_of w' ++ rest)
        × Filled (w ++ w') rest io
        × (io.held ≡ held))

io_error-ne_zero : (io : Io) (e : ℕ) → (io_error io e).error ≢ 0
unfolding io_error
io_error-ne_zero io e h = ground arith

-- What is to come behind a packet.
Source-next :
    (d : List ℕ) (ds : List (List ℕ)) (io : Io) (f : Stream) (n : Bool) (q : Option ℕ)
    → Source (d ∷ ds) io
    → pending (record io { file = f; newline = n; prevchar = q }) ≡ drop io.blocksize (pending io)
    → Source ds (store_packet (record io { file = f; newline = n; prevchar = q }) d)
Source-next d ds io f n q (inl (_, e)) rest = absurd (ground arith)
Source-next d ds io f n q (inr (fresh, (_, inl (short, e)))) rest = inl (ground (arith, short), e)
Source-next d ds io f n q (inr (fresh, (_, inr (full, cut)))) rest =
    inr (ground (arith, full, fresh), rw rest cut)

store_packet-Filled :
    (w : List Packet) (d : List ℕ) (ds : List (List ℕ)) (io : Io) (f : Stream) (n : Bool)
    (q : Option ℕ)
    → Filled w (d ∷ ds) io
    → length w < io.window
    → pending (record io { file = f; newline = n; prevchar = q }) ≡ drop io.blocksize (pending io)
    → Filled
        (w ++ record (io_packet io io.tail) { payload = d } ∷ [])
        ds
        (store_packet (record io { file = f; newline = n; prevchar = q }) d)
store_packet-Filled w d ds io f n q h lt rest =
    let p : Packet = record (io_packet io io.tail) { payload = d } in
    let one : length (w ++ p ∷ []) ≡ suc (length w) = omega (arith, length-append w (p ∷ [])) in
    let place = walk io.slots io.head in
    let packets = set io.packets io.tail p in
    let lengths = set io.lengths io.tail (length d + 4) in
    let wide = h.wide in
    let in_ring : io.tail < io.slots =
      subst (λ t. t < io.slots) (sym h.behind)
        (walk-lt io.slots io.head (length w) h.placed (omega arith)) in
    let sized = h.packets_sized in
    let sized' = h.lengths_sized in
    let apart : (k : ℕ) → k < length w → io.tail ≢ place k = λ k lt' e.
      walk-ne io.slots io.head {j = k} {k = length w} h.placed (omega arith) lt' (omega arith)
        (sym e ∙ h.behind) in
    record {
      packets_sized = length-set io.packets io.tail p ∙ h.packets_sized;
      lengths_sized = length-set io.lengths io.tail (length d + 4) ∙ h.lengths_sized;
      wide = h.wide;
      placed = h.placed;
      counted = omega (arith, one, h.counted);
      bounded = omega (arith, one);
      behind =
          ap (io_next io.slots) h.behind
          ∙ walk-suc io.slots io.head (length w)
          ∙ ap place (sym one);
      clean = h.clean;
      filled =
          Holds-snoc io.slots packets lengths io.head w p
            (Holds-set_ne io.slots io.packets io.lengths io.head io.tail (length d + 4) p w apart
              h.filled)
            (rw (← h.behind) (get_or-set_self io.packets io.tail p blank (omega arith)))
            (rw (← h.behind) (get_or-set_self io.lengths io.tail (length d + 4) 0 (omega arith)));
      source = Source-next d ds io f n q h.source rest;
    }

Source-cons :
    (ds : List (List ℕ)) (io : Io)
    → Source ds io
    → io.eof ≡ false
    → (rest : List (List ℕ)) × (ds ≡ take io.blocksize (pending io) ∷ rest)
Source-cons ds io (inl (e, _)) fresh = absurd (ground arith)
Source-cons [] io (inr (_, c)) fresh = absurd c
Source-cons (d ∷ ds) io (inr (_, (e, _))) fresh = (ds, ap (λ x. x ∷ ds) e)

Refilled-cons :
    (w : List Packet) (p : Packet) (ds rest : List (List ℕ)) (held : ℕ) (io : Io)
    → ds ≡ p.payload ∷ rest
    → Refilled (w ++ p ∷ []) rest held io
    → Refilled w ds held io
Refilled-cons w p ds rest held io e (inl bad) = inl bad
Refilled-cons w p ds rest held io e (inr (more, last, cut, filled, same)) = inr (
  p ∷ more,
  last,
  e ∙ ap (λ l. p.payload ∷ l) cut,
  subst (λ l. Filled l last io) (append_assoc w (p ∷ []) more) filled,
  same,
)

fill_window-Refilled :
    (rounds : ℕ) (w : List Packet) (ds : List (List ℕ)) (io : Io)
    → Filled w ds io
    → Refilled w ds io.held (fill_window rounds io)
unfolding fill_window
fill_window-Refilled zero w ds io h = inr ([], ds, refl, rw append-nil h, refl)
fill_window-Refilled (suc rounds) w ds io h =
    elim (Bool-cases (ltb io.count io.window && not io.eof && io.error == 0)) [
      | inr done ↦
          let step : fill_window (suc rounds) io ≡ io = ground (arith, done) in
          subst (Refilled w ds io.held) (sym step) (inr ([], ds, refl, rw append-nil h, refl))
      | inl more ↦ elim (Answer-cases (read_bytes io)) [
        | inr (e, s, bad) ↦
            let step : fill_window (suc rounds) io ≡ io_error s e = ground (arith, more, bad) in
            subst (Refilled w ds io.held) (sym step) (inl (io_error-ne_zero s e))
        | inl (d, s, got) ↦
            let step : fill_window (suc rounds) io ≡ fill_window rounds (store_packet s d) =
              ground (arith, more, got) in
            let a : Advances io.blocksize io d s =
              subst (Cut io.blocksize io) got (read_bytes-Cut io) in
            let fresh : io.eof ≡ false = ground (arith, more) in
            let room : length w < io.window = ground (arith, more, h.counted) in
            let (rest, cut) = Source-cons ds io h.source fresh in
            let split : ds ≡ d ∷ rest = cut ∙ ap (λ x. x ∷ rest) (sym a.0) in
            let s' : Io = record io { file = s.file; newline = s.newline; prevchar = s.prevchar } in
            let p : Packet = record (io_packet io io.tail) { payload = d } in
            let stored : Filled (w ++ p ∷ []) rest (store_packet s' d) =
              store_packet-Filled w d rest io s.file s.newline s.prevchar
                (subst (λ x. Filled w x io) split h) room (ap pending (sym a.2) ∙ a.1) in
            subst (Refilled w ds io.held) (sym step) (
              subst (λ j. Refilled w ds io.held (fill_window rounds (store_packet j d))) (sym a.2)
                (Refilled-cons w p ds rest io.held (fill_window rounds (store_packet s' d)) split
                  (fill_window-Refilled rounds (w ++ p ∷ []) rest (store_packet s' d) stored)))
      ]
    ]

-- A window of `w` is held.
abbrev pub Lent : List Packet → List (List ℕ) → Io → Type 0
Lent w ds io = Filled w ds io × (io.held ≡ length w)

Filled-held :
    (w : List Packet) (ds : List (List ℕ)) (io : Io) (n : ℕ)
    → Filled w ds io
    → Filled w ds (record io { held = n })
Filled-held w ds io n h = record {
  packets_sized = h.packets_sized;
  lengths_sized = h.lengths_sized;
  wide = h.wide;
  placed = h.placed;
  counted = h.counted;
  bounded = h.bounded;
  behind = h.behind;
  clean = h.clean;
  filled = h.filled;
  source = h.source;
}

ended :
    (rest : List (List ℕ)) (io : Io) (n : ℕ)
    → Source rest io
    → (io.eof && n == io.count) ≡ true
    → rest ≡ []
ended rest io n (inl (_, e)) final = e
ended rest io n (inr (fresh, _)) final = absurd (ground arith)

pub read_window-Lent :
    (ds : List (List ℕ)) (s s' : Io) (count : ℕ) (final : Bool)
    → Filled [] ds s
    → tftp_io_read_window s ≡ ok (count, final) s'
    → (w : List Packet) × (rest : List (List ℕ)) × Lent w rest s'
      × (length w ≡ count)
      × (ds ≡ payloads_of w ++ rest)
      × (final ≡ true → rest ≡ [])
unfolding tftp_io_read_window
read_window-Lent ds s s' count final h e = go (fill_window-Refilled s.window [] ds s h)
  where
    go :
        Refilled [] ds s.held (fill_window s.window s)
        → (w : List Packet) × (rest : List (List ℕ)) × Lent w rest s'
          × (length w ≡ count)
          × (ds ≡ payloads_of w ++ rest)
          × (final ≡ true → rest ≡ [])
    go (inl bad) = absurd (ground arith)
    go (inr (w, rest, cut, f, same)) =
        let io = fill_window s.window s in
        let clean = f.clean in
        let all : (if ltb io.count io.window then io.count else io.window) ≡ length w =
          ground (arith, f.counted, f.bounded) in
        let held : s' ≡ record io { held = length w } = ground (arith, clean, all) in
        let n : count ≡ length w = ground (arith, clean, all) in
        let last : final ≡ (io.eof && length w == io.count) = ground (arith, clean, all) in
        (
          w,
          rest,
          subst (Lent w rest) (sym held) (Filled-held w rest io (length w) f, refl),
          sym n,
          cut,
          λ x. ended rest io (length w) f.source (sym last ∙ x),
        )
