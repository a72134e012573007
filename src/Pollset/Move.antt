-- ===== src/Pollset/Move.antt =====
-- pollset_add: where the elements are after the array has grown and a part of it has moved.
use network_tftp_tftp_hpa.Prelude.{
  ℕ, zero, suc, ◌+◌, ◌-◌, ◌*◌, ◌≤◌, ◌<◌, ◌≡◌, ◌≢◌, refl, ap, ◌∙◌, true, some, List, [], ◌∷◌, ◌++◌,
  ltb, leb, if◌then◌else◌, length, length-append, length-replicate, length-set, get_or, replicate,
  get_or-set_self, get_or-set_ne, Bool-cases, inl, inr, arith,
}
use network_tftp_tftp_hpa.Pollset.{
  Pollfd, Pollset, unused, rank, rank_at, shifted, move_up, grown, insert_at,
}
use network_tftp_tftp_hpa.Pollset.Find.{IsValid}

length-shifted : (n : ℕ) (c : Pollfd) (xs : List Pollfd) → length (shifted n c xs) ≡ length xs
unfolding shifted
length-shifted zero c xs = refl
length-shifted (suc n) c [] = refl
length-shifted (suc n) c (x ∷ xs) = ap suc (length-shifted n x xs)

length-move_up : (i n : ℕ) (xs : List Pollfd) → length (move_up i n xs) ≡ length xs
unfolding move_up
length-move_up i n [] = refl
length-move_up zero n (x ∷ xs) = ap suc (length-shifted n x xs)
length-move_up (suc i) n (x ∷ xs) = ap suc (length-move_up i n xs)

get_or-shifted :
    (n : ℕ) (c : Pollfd) (xs : List Pollfd) (j : ℕ)
    → j < n
    → j < length xs
    → get_or (shifted n c xs) j unused ≡ get_or (c ∷ xs) j unused
unfolding shifted
get_or-shifted zero c xs j lt h = absurd (omega arith)
get_or-shifted (suc n) c [] j lt h = absurd (omega arith)
get_or-shifted (suc n) c (x ∷ xs) zero lt h = refl
get_or-shifted (suc n) c (x ∷ xs) (suc j) lt h = get_or-shifted n x xs j (omega arith) (omega arith)

-- Up to the place nothing moves.
get_or-move_up_below :
    (i n : ℕ) (xs : List Pollfd) (j : ℕ)
    → j ≤ i
    → get_or (move_up i n xs) j unused ≡ get_or xs j unused
unfolding move_up
get_or-move_up_below i n [] j le = refl
get_or-move_up_below zero n (x ∷ xs) zero le = refl
get_or-move_up_below zero n (x ∷ xs) (suc j) le = absurd (omega arith)
get_or-move_up_below (suc i) n (x ∷ xs) zero le = refl
get_or-move_up_below (suc i) n (x ∷ xs) (suc j) le = get_or-move_up_below i n xs j (omega arith)

-- Behind it n elements are a place higher.
get_or-move_up_above :
    (i n : ℕ) (xs : List Pollfd) (j : ℕ)
    → i ≤ j
    → j < i + n
    → suc j < length xs
    → get_or (move_up i n xs) (suc j) unused ≡ get_or xs j unused
unfolding move_up
get_or-move_up_above i n [] j le lt h = absurd (omega arith)
get_or-move_up_above zero n (x ∷ xs) j le lt h = get_or-shifted n x xs j (omega arith) (omega arith)
get_or-move_up_above (suc i) n (x ∷ xs) zero le lt h = absurd (omega arith)
get_or-move_up_above (suc i) n (x ∷ xs) (suc j) le lt h =
    get_or-move_up_above i n xs j (omega arith) (omega arith) (omega arith)

get_or-append_left :
    (xs ys : List Pollfd) (j : ℕ) → j < length xs → get_or (xs ++ ys) j unused ≡ get_or xs j unused
get_or-append_left [] ys j h = absurd (omega arith)
get_or-append_left (x ∷ xs) ys zero h = refl
get_or-append_left (x ∷ xs) ys (suc j) h = get_or-append_left xs ys j (omega arith)

-- What pollset_add needs of the set for the insertion.
pub record Roomy (s t : Pollset) : Type 0 where
  pub same : t.nfds ≡ s.nfds
  pub allocated : length t.fds ≡ t.size
  pub more : t.nfds < t.size
  pub kept : (j : ℕ) → j < s.nfds → rank_at t.fds j ≡ rank_at s.fds j

pub grown-Roomy : (s : Pollset) → IsValid s → Roomy s (grown s)
unfolding grown
grown-Roomy s v =
    let allocated = v.allocated in
    let within = v.within in
    let some_room = v.some_room in
    elim (Bool-cases (leb s.size s.nfds)) [
      | inl full ↦ rw full (record {
        same = refl;
        allocated = omega (
          arith,
          length-append s.fds (replicate (s.size * 2 - s.size) unused),
          length-replicate (s.size * 2 - s.size) unused,
        );
        more = ground arith;
        kept = λ j lt.
            ap (λ p. rank p.fd)
              (get_or-append_left s.fds (replicate (s.size * 2 - s.size) unused) j (ground arith));
      })
      | inr room ↦
          rw room (record {
            same = refl;
            allocated = allocated;
            more = ground arith;
            kept = λ j lt. refl;
          })
    ]

-- Where the elements are after the insertion of `fd` at i.
module _ (i fd : ℕ) (t : Pollset) (allocated : length t.fds ≡ t.size) (more : t.nfds < t.size)
    (le : i ≤ t.nfds) where
  moved : List Pollfd
  moved = if ltb i t.nfds then move_up i (t.nfds - i) t.fds else t.fds

  length-moved : length moved ≡ t.size
  unfolding moved
  length-moved = ground (arith, length-move_up i (t.nfds - i) t.fds)

  pub length-insert_at : length (insert_at i fd t).fds ≡ t.size
  unfolding insert_at moved
  length-insert_at =
      length-set moved i (record (get_or moved i unused) { fd = some fd }) ∙ length-moved

  pub insert_at_self : rank_at (insert_at i fd t).fds i ≡ suc fd
  unfolding insert_at moved
  insert_at_self =
      ap (λ p. rank p.fd)
        (get_or-set_self moved i (record (get_or moved i unused) { fd = some fd }) unused
          (omega (arith, length-moved)))

  pub insert_at_below : (j : ℕ) → j < i → rank_at (insert_at i fd t).fds j ≡ rank_at t.fds j
  unfolding insert_at moved
  insert_at_below j lt =
      let other : i ≢ j = λ e. omega arith in
      let stays : get_or moved j unused ≡ get_or t.fds j unused = elim (Bool-cases (ltb i t.nfds)) [
        | inl inner ↦ rw inner (get_or-move_up_below i (t.nfds - i) t.fds j (omega arith))
        | inr last ↦ rw last refl
      ] in
      ap (λ p. rank p.fd)
        (get_or-set_ne moved i j (record (get_or moved i unused) { fd = some fd }) unused other
          ∙ stays)

  pub insert_at_above :
      (j : ℕ) → i ≤ j → j < t.nfds → rank_at (insert_at i fd t).fds (suc j) ≡ rank_at t.fds j
  unfolding insert_at moved
  insert_at_above j ij jn =
      let other : i ≢ suc j = λ e. omega arith in
      let inner : ltb i t.nfds ≡ true = ground arith in
      let comes : get_or moved (suc j) unused ≡ get_or t.fds j unused =
        rw inner (get_or-move_up_above i (t.nfds - i) t.fds j ij (omega arith) (omega arith)) in
      ap (λ p. rank p.fd)
        (get_or-set_ne moved i (suc j) (record (get_or moved i unused) { fd = some fd }) unused
            other
          ∙ comes)
