-- ===== src/Pollset/Find.antt =====
-- pollset_find: binary search.
use network_tftp_tftp_hpa.Prelude.{
  ℕ, zero, suc, ◌+◌, ◌-◌, ◌/◌, ◌≤◌, ◌<◌, ◌≡◌, ◌↔◌, refl, true, false, List, ltb, ◌==◌, length,
  Bool-cases, inl, inr, arith, ◌⊎◌,
}
use network_tftp_tftp_hpa.Pollset.{
  Pollfd, Pollset, rank_at, Found, find_between, pollset_find, pollset_has,
}

-- The elements in use are descriptors, each above the one before it, and there is room for them.
pub record IsValid (s : Pollset) : Type 0 where
  pub allocated : length s.fds ≡ s.size
  pub within : s.nfds ≤ s.size
  pub some_room : 0 < s.size
  pub real : (j : ℕ) → j < s.nfds → 0 < rank_at s.fds j
  pub sorted : (j k : ℕ) → j < k → k < s.nfds → rank_at s.fds j < rank_at s.fds k

-- Where `fd` stands among the first n elements, or would stand.
abbrev pub IsPlace : (fds : List Pollfd) → (n fd : ℕ) → Found → Type 0
IsPlace fds n fd f =
    ((f.found ≡ true) × (f.i < n) × (rank_at fds f.i ≡ suc fd))
    ⊎ ((f.found ≡ false)
        × (f.i ≤ n)
        × ((j : ℕ) → j < f.i → rank_at fds j < suc fd)
        × ((j : ℕ) → f.i ≤ j → j < n → suc fd < rank_at fds j))

module _ (fds : List Pollfd) (n fd : ℕ)
    (sorted : (j k : ℕ) → j < k → k < n → rank_at fds j < rank_at fds k) where
  find_between-IsPlace :
      (fuel l h : ℕ)
      → h - l < fuel
      → l ≤ h
      → h ≤ n
      → ((j : ℕ) → j < l → rank_at fds j < suc fd)
      → ((j : ℕ) → h ≤ j → j < n → suc fd < rank_at fds j)
      → IsPlace fds n fd (find_between fuel fds fd l h)
  unfolding find_between
  find_between-IsPlace zero l h enough le top below above = absurd (omega arith)
  find_between-IsPlace (suc fuel) l h enough le top below above = elim (Bool-cases (ltb l h)) [
    | inr done ↦ rw done (inr (refl, omega arith, below, λ j lj jn. above j (ground arith) jn))
    | inl more ↦
        let i : ℕ = (l + h) / 2 in
        let lt : l < h = ground arith in
        elim (Bool-cases (ltb (rank_at fds i) (suc fd))) [
          | inl right ↦
              rw (more, right)
                (find_between-IsPlace fuel (i + 1) h (omega arith) (omega arith) top
                  (λ j lj. ground (arith, sorted j i)) above)
          | inr other ↦ elim (Bool-cases (rank_at fds i == suc fd)) [
            | inl here ↦ rw (more, other, here) (inl (refl, omega arith, ground arith))
            | inr left ↦
                rw (more, other, left)
                  (find_between-IsPlace fuel l i (omega arith) (omega arith) (omega arith) below
                    (λ j ij jn. ground (arith, sorted i j)))
          ]
        ]
  ]

-- In a valid set pollset_find gives the place of the descriptor, or where it would stand.
pub pollset_find-IsPlace :
    (s : Pollset) (fd : ℕ) → IsValid s → IsPlace s.fds s.nfds fd (pollset_find s fd)
unfolding pollset_find
pollset_find-IsPlace s fd v =
    find_between-IsPlace s.fds s.nfds fd v.sorted (suc s.nfds) 0 s.nfds (omega arith) (omega arith)
      (omega arith) (λ j lt. absurd (omega arith)) (λ j le lt. absurd (omega arith))

-- In a valid set pollset_has finds exactly the descriptors that are in use.
pub pollset_has_iff :
    (s : Pollset) (fd : ℕ)
    → IsValid s
    → (pollset_has s fd ≡ true) ↔ ((j : ℕ) × (j < s.nfds) × (rank_at s.fds j ≡ suc fd))
unfolding pollset_has
pollset_has_iff s fd v = elim (pollset_find-IsPlace s fd v) [
  | inl (e, lt, at) ↦ (λ h. ((pollset_find s fd).i, lt, at), λ h. e)
  | inr (e, le, below, above) ↦
      (λ h. absurd (ground arith), λ (j, lt, at). absurd (ground (arith, below j, above j)))
]
