-- ===== src/Pollset/Add.antt =====
-- pollset_add: the set stays valid and gains the descriptor.
use network_tftp_tftp_hpa.Prelude.{
  ℕ, suc, ◌-◌, ◌≤◌, ◌<◌, ◌≡◌, ◌↔◌, refl, sym, ap, subst, ◌∙◌, true, some, List, ltb, ◌==◌,
  Bool-cases, inl, inr, arith, ◌⊎◌,
}
use network_tftp_tftp_hpa.Pollset.{
  Pollfd, Pollset, rank_at, grown, insert_at, pollset_find, pollset_add, pollset_new, pollset_has,
}
use network_tftp_tftp_hpa.Pollset.Find.{IsValid, pollset_find-IsPlace, pollset_has_iff}
use network_tftp_tftp_hpa.Pollset.Move.{
  grown-Roomy, length-insert_at, insert_at_self, insert_at_below, insert_at_above,
}

-- An element of the new set stands below the place, at it, or above it.
data Origin (s : Pollset) (i fd : ℕ) (u : List Pollfd) (k : ℕ) : Type 0 where
  under : k < i → k < s.nfds → rank_at u k ≡ rank_at s.fds k → Origin s i fd u k
  itself : k ≡ i → rank_at u k ≡ suc fd → Origin s i fd u k
  over : i < k → k - 1 < s.nfds → rank_at u k ≡ rank_at s.fds (k - 1) → Origin s i fd u k

module _ (s : Pollset) (fd i : ℕ) (v : IsValid s) (le : i ≤ s.nfds)
    (below : (j : ℕ) → j < i → rank_at s.fds j < suc fd)
    (above : (j : ℕ) → i ≤ j → j < s.nfds → suc fd < rank_at s.fds j) where
  abbrev inserted : Pollset
  inserted = insert_at i fd (grown s)

  origin : (k : ℕ) → k < suc s.nfds → Origin s i fd inserted.fds k
  origin k lt =
      let r = grown-Roomy s v in
      let same = r.same in
      let here : i ≤ (grown s).nfds = omega arith in
      elim (Bool-cases (ltb k i)) [
        | inl b ↦ under (ground arith) (ground arith) (
            insert_at_below i fd (grown s) r.allocated r.more here k (ground arith)
            ∙ r.kept k (ground arith))
        | inr nb ↦ elim (Bool-cases (k == i)) [
          | inl e ↦
              let eq : i ≡ k = ground arith in
              itself (ground arith) (
                subst (λ x. rank_at (insert_at i fd (grown s)).fds x ≡ suc fd) eq
                  (insert_at_self i fd (grown s) r.allocated r.more here))
          | inr ne ↦
              let up : suc (k - 1) ≡ k = ground arith in
              over (ground arith) (ground arith) (
                subst (λ x. rank_at (insert_at i fd (grown s)).fds x ≡ rank_at s.fds (k - 1)) up
                  (insert_at_above i fd (grown s) r.allocated r.more here (k - 1) (ground arith)
                      (ground arith)
                    ∙ r.kept (k - 1) (ground arith)))
        ]
      ]

  in_order :
      (j k : ℕ) {u : List Pollfd}
      → j < k
      → Origin s i fd u j
      → Origin s i fd u k
      → rank_at u j < rank_at u k
  in_order j k lt (under a b c) (under a' b' c') = ground (arith, v.sorted j k)
  in_order j k lt (under a b c) (itself a' c') = ground (arith, below j)
  in_order j k lt (under a b c) (over a' b' c') = ground (arith, below j, above (k - 1))
  in_order j k lt (itself a c) (under a' b' c') = absurd (omega arith)
  in_order j k lt (itself a c) (itself a' c') = absurd (omega arith)
  in_order j k lt (itself a c) (over a' b' c') = ground (arith, above (k - 1))
  in_order j k lt (over a b c) (under a' b' c') = absurd (omega arith)
  in_order j k lt (over a b c) (itself a' c') = absurd (omega arith)
  in_order j k lt (over a b c) (over a' b' c') = ground (arith, v.sorted (j - 1) (k - 1))

  some_rank : (k : ℕ) {u : List Pollfd} → Origin s i fd u k → 0 < rank_at u k
  some_rank k (under a b c) = ground (arith, v.real k)
  some_rank k (itself a c) = ground arith
  some_rank k (over a b c) = ground (arith, v.real (k - 1))

  inserted-IsValid : IsValid inserted
  unfolding insert_at
  inserted-IsValid =
      let r = grown-Roomy s v in
      let same = r.same in
      let more = r.more in
      record {
        allocated = length-insert_at i fd (grown s) r.allocated more (omega arith);
        within = omega arith;
        some_room = omega arith;
        real = λ j lt. some_rank j (origin j (omega arith));
        sorted = λ j k jk kn. in_order j k jk (origin j (omega arith)) (origin k (omega arith));
      }

  nfds-inserted : inserted.nfds ≡ suc s.nfds
  unfolding insert_at
  nfds-inserted = let same = (grown-Roomy s v).same in omega arith

  -- Each element of the old set has a place in the new one.
  place_of :
      (j : ℕ) → j < s.nfds → (k : ℕ) × (k < suc s.nfds) × (rank_at inserted.fds k ≡ rank_at s.fds j)
  place_of j lt =
      let r = grown-Roomy s v in
      let same = r.same in
      let here : i ≤ (grown s).nfds = omega arith in
      elim (Bool-cases (ltb j i)) [
        | inl b ↦ (
          j,
          omega arith,
          insert_at_below i fd (grown s) r.allocated r.more here j (ground arith) ∙ r.kept j lt,
        )
        | inr nb ↦ (
          suc j,
          omega arith,
          insert_at_above i fd (grown s) r.allocated r.more here j (ground arith) (omega arith)
              ∙ r.kept j lt,
        )
      ]

  place_of_new : rank_at inserted.fds i ≡ suc fd
  place_of_new =
      let r = grown-Roomy s v in
      let same = r.same in insert_at_self i fd (grown s) r.allocated r.more (omega arith)

  -- The new set has the descriptor and those of the old one.
  from_inserted :
      (x k : ℕ)
      → rank_at inserted.fds k ≡ suc x
      → Origin s i fd inserted.fds k
      → (x ≡ fd) ⊎ (pollset_has s x ≡ true)
  from_inserted x k at (under a b c) = inr ((pollset_has_iff s x v).1 (k, b, sym c ∙ at))
  from_inserted x k at (itself a c) = inl (omega arith)
  from_inserted x k at (over a b c) = inr ((pollset_has_iff s x v).1 (k - 1, b, sym c ∙ at))

  into_inserted :
      (x : ℕ)
      → (x ≡ fd) ⊎ (pollset_has s x ≡ true)
      → (k : ℕ) × (k < suc s.nfds) × (rank_at inserted.fds k ≡ suc x)
  into_inserted x (inl e) = (i, omega arith, place_of_new ∙ ap suc (sym e))
  into_inserted x (inr h) =
      let (j, lt, at) = (pollset_has_iff s x v).0 h in
      let (k, kn, from) = place_of j lt in (k, kn, from ∙ at)

  has_inserted : (x : ℕ) → (pollset_has inserted x ≡ true) ↔ ((x ≡ fd) ⊎ (pollset_has s x ≡ true))
  has_inserted x =
      let new = pollset_has_iff inserted x inserted-IsValid in
      let n = nfds-inserted in
      (
        λ h. let (k, lt, at) = new.0 h in from_inserted x k at (origin k (omega arith)),
        λ m. let (k, lt, at) = into_inserted x m in new.1 (k, omega arith, at),
      )

pub pollset_new-IsValid : IsValid pollset_new
unfolding pollset_new
pollset_new-IsValid = record {
  allocated = refl;
  within = omega arith;
  some_room = omega arith;
  real = λ j lt. absurd (omega arith);
  sorted = λ j k jk kn. absurd (omega arith);
}

-- Of a valid set and a descriptor pollset_add makes a valid set, which has that descriptor and
-- those of the set before, and no other.
pub pollset_has-pollset_add :
    (s : Pollset) (fd : ℕ)
    → IsValid s
    → IsValid (pollset_add (some s) (some fd))
      × ((x : ℕ)
          → (pollset_has (pollset_add (some s) (some fd)) x ≡ true)
            ↔ ((x ≡ fd) ⊎ (pollset_has s x ≡ true)))
unfolding pollset_add
pollset_has-pollset_add s fd v = elim (pollset_find-IsPlace s fd v) [
  | inl (e, lt, at) ↦ rw e (
    v,
    λ x. (
      λ h. inr h,
      λ m. elim m [
        | inl same ↦ (pollset_has_iff s x v).1 ((pollset_find s fd).i, lt, at ∙ ap suc (sym same))
        | inr h ↦ h
      ],
    ),
  )
  | inr (e, le, below, above) ↦ rw e (
    inserted-IsValid s fd (pollset_find s fd).i v le below above,
    has_inserted s fd (pollset_find s fd).i v le below above,
  )
]
