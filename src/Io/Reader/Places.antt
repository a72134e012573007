-- ===== src/Io/Reader/Places.antt =====
-- The packets in the ring of the reading side, from a slot on.
use network_tftp_tftp_hpa.Prelude.{
  ℕ, zero, suc, ◌+◌, ◌-◌, ◌%◌, ◌≤◌, ◌<◌, ◌≡◌, ◌≢◌, refl, sym, ap, ◌∙◌, some, List, [], ◌∷◌, ◌++◌,
  length, get_elem?, set, get_or, get_or-set_self, get_or-set_ne, arith, ltb, Bool-cases, inl, inr,
}
use native.Mathlib.Nat.{mod-eq_of_lt, mod-eq-sub-mod}
use network_tftp_tftp_hpa.Packet.{Packet}
use network_tftp_tftp_hpa.Io.{io_next, blank}
use network_tftp_tftp_hpa.Io.Writer.Ring.{
  walk, walk_lem, walk_behind, walk-ne, walk-zero, io_next-lt,
}

pub get_elem?_lt : (w : List Packet) (n : ℕ) {p : Packet} → get_elem? w n ≡ some p → n < length w
get_elem?_lt [] n e = absurd (ground arith)
get_elem?_lt (q ∷ w) zero e = omega arith
get_elem?_lt (q ∷ w) (suc n) e = omega (arith, get_elem?_lt w n e)

-- The packets `w` and their lengths stand in the slots from `h` on.
pub Holds : (slots : ℕ) → List Packet → List ℕ → (h : ℕ) → List Packet → Type 0
Holds slots packets lengths h [] = Unit
Holds slots packets lengths h (p ∷ w) =
    (get_or packets h blank ≡ p)
    × (get_or lengths h 0 ≡ length p.payload + 4)
    × Holds slots packets lengths (io_next slots h) w

module _ (slots : ℕ) where
  pub Holds-nil : (ps : List Packet) (ls : List ℕ) (h : ℕ) → Holds slots ps ls h []
  unfolding Holds
  Holds-nil ps ls h = tt

  pub Holds-tail :
      (ps : List Packet) (ls : List ℕ) (h : ℕ) (p : Packet) (w : List Packet)
      → Holds slots ps ls h (p ∷ w)
      → Holds slots ps ls (io_next slots h) w
  unfolding Holds
  Holds-tail ps ls h p w held = held.2

  -- Only the slots from `h` on count.
  pub Holds-agree :
      (ps ps' : List Packet) (ls ls' : List ℕ) (h : ℕ) (w : List Packet)
      → ((k : ℕ)
          → k < length w
          → (get_or ps' (walk slots h k) blank ≡ get_or ps (walk slots h k) blank)
            × (get_or ls' (walk slots h k) 0 ≡ get_or ls (walk slots h k) 0))
      → Holds slots ps ls h w
      → Holds slots ps' ls' h w
  unfolding Holds walk
  Holds-agree ps ps' ls ls' h [] same held = tt
  Holds-agree ps ps' ls ls' h (p ∷ w) same held =
      let here = rw (walk-zero slots h) at (same 0 (omega arith)) in
      (
        here.0 ∙ held.0,
        here.1 ∙ held.1,
        Holds-agree ps ps' ls ls' (io_next slots h) w
            (λ k lt. rw (← walk_behind slots h k) (same (suc k) (omega arith))) held.2,
      )

  -- A write to another slot.
  pub Holds-set_ne :
      (ps : List Packet) (ls : List ℕ) (h t n : ℕ) (q : Packet) (w : List Packet)
      → ((k : ℕ) → k < length w → t ≢ walk slots h k)
      → Holds slots ps ls h w
      → Holds slots (set ps t q) (set ls t n) h w
  Holds-set_ne ps ls h t n q w apart = Holds-agree ps (set ps t q) ls (set ls t n) h w (λ k lt. (
    get_or-set_ne ps t (walk slots h k) q blank (apart k lt),
    get_or-set_ne ls t (walk slots h k) n 0 (apart k lt),
  ))

  -- One more packet behind the others.
  pub Holds-snoc :
      (ps : List Packet) (ls : List ℕ) (h : ℕ) (w : List Packet) (p : Packet)
      → Holds slots ps ls h w
      → get_or ps (walk slots h (length w)) blank ≡ p
      → get_or ls (walk slots h (length w)) 0 ≡ length p.payload + 4
      → Holds slots ps ls h (w ++ p ∷ [])
  unfolding Holds
  Holds-snoc ps ls h [] p held e n = (
    ap (λ i. get_or ps i blank) (sym (walk-zero slots h)) ∙ e,
    ap (λ i. get_or ls i 0) (sym (walk-zero slots h)) ∙ n,
    tt,
  )
  Holds-snoc ps ls h (q ∷ w) p held e n = (
    held.0,
    held.1,
    Holds-snoc ps ls (io_next slots h) w p held.2
        (ap (λ i. get_or ps i blank) (walk_behind slots h (length w)) ∙ e)
        (ap (λ i. get_or ls i 0) (walk_behind slots h (length w)) ∙ n),
  )

  -- The packet at a place, and its length.
  pub Holds-at :
      (ps : List Packet) (ls : List ℕ) (h n : ℕ) (w : List Packet)
      → n < length w
      → Holds slots ps ls h w
      → (get_elem? w n ≡ some (get_or ps (walk slots h n) blank))
        × (get_or ls (walk slots h n) 0 ≡ length (get_or ps (walk slots h n) blank).payload + 4)
  unfolding Holds
  Holds-at ps ls h n [] lt held = absurd (omega arith)
  Holds-at ps ls h zero (p ∷ w) lt held =
      rw (walk-zero slots h)
        (ap some (sym held.0), held.1 ∙ ap (λ (r : Packet). length r.payload + 4) (sym held.0))
  Holds-at ps ls h (suc n) (p ∷ w) lt held =
      let later = Holds-at ps ls (io_next slots h) n w (omega arith) held.2 in
      rw (walk_behind slots h n) at later

  -- A new header for a packet.
  pub Holds-header :
      (ps : List Packet) (ls : List ℕ) (h n : ℕ) (w : List Packet) (p q : Packet)
      → h < slots
      → length ps ≡ slots
      → length w ≤ slots
      → get_elem? w n ≡ some p
      → q.payload ≡ p.payload
      → Holds slots ps ls h w
      → Holds slots (set ps (walk slots h n) q) ls h (set w n q)
  unfolding Holds walk
  Holds-header ps ls h n [] p q hh size fits e same held = absurd (ground arith)
  Holds-header ps ls h zero (p' ∷ w) p q hh size fits e same held =
      let first : p' ≡ p = ground arith in
      rw (walk-zero slots h) (
        get_or-set_self ps h q blank (omega arith),
        held.1 ∙ ap (λ d. length d + 4) (ap (λ (r : Packet). r.payload) first ∙ sym same),
        Holds-agree ps (set ps h q) ls ls (io_next slots h) w
            (λ k lt. (
              get_or-set_ne ps h (walk slots (io_next slots h) k) q blank (λ x.
                  walk-ne slots h {j = 0} {k = suc k} hh (omega arith) (omega arith) (omega arith)
                    (walk-zero slots h ∙ x ∙ walk_behind slots h k)),
              refl,
            ))
            held.2,
      )
  Holds-header ps ls h (suc n) (p' ∷ w) p q hh size fits e same held = (
    get_or-set_ne ps (walk slots h (suc n)) h q blank (λ x.
          walk-ne slots h {j = 0} {k = suc n} hh (omega (arith, get_elem?_lt w n e)) (omega arith)
            (omega (arith, get_elem?_lt w n e)) (walk-zero slots h ∙ sym x))
        ∙ held.0,
    held.1,
    rw (walk_behind slots h n) at (
        Holds-header ps ls (io_next slots h) n w p q (io_next-lt slots h hh) size (omega arith) e
          same held.2),
  )

  -- The slot that the callbacks compute.
  pub slot_walk : (h n : ℕ) → h < slots → n < slots → (h + n) % slots ≡ walk slots h n
  slot_walk h n hh hn = elim (Bool-cases (ltb (h + n) slots)) [
    | inl below ↦
        let small : h + n < slots = ground arith in
        ground (arith, mod-eq_of_lt small, walk_lem slots n h hh)
    | inr above ↦
        let wrapped : (h + n) % slots ≡ h + n - slots =
          mod-eq-sub-mod (ground arith) ∙ mod-eq_of_lt (omega arith) in
        ground (arith, wrapped, walk_lem slots n h hh)
  ]
