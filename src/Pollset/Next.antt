-- ===== src/Pollset/Next.antt =====
-- pollset_next: the walk over a set.
use network_tftp_tftp_hpa.Prelude.{
  ℕ, zero, suc, ◌+◌, ◌-◌, ◌≤◌, ◌<◌, ◌≡◌, ◌≢◌, refl, Option, none, some, ◌==◌, get_or, Bool-cases,
  inl, inr, arith,
}
use Prim.Native.Nat.{bit_and}
use network_tftp_tftp_hpa.Pollset.{Pollset, unused, next_from, pollset_next}

-- The next element from the cursor on that is ready: all before it are not.
abbrev pub IsNext : (s : Pollset) → (cursor what : ℕ) → Option (Option ℕ × ℕ × ℕ) → Type 0
IsNext s cursor what none =
    (j : ℕ) → cursor ≤ j → j < s.nfds → bit_and what (get_or s.fds j unused).revents ≡ 0
IsNext s cursor what (some (fd, next, flags)) =
    (i : ℕ) × (next ≡ suc i)
    × (cursor ≤ i)
    × (i < s.nfds)
    × (fd ≡ (get_or s.fds i unused).fd)
    × (flags ≡ bit_and what (get_or s.fds i unused).revents)
    × (flags ≢ 0)
    × ((j : ℕ) → cursor ≤ j → j < i → bit_and what (get_or s.fds j unused).revents ≡ 0)

next_from-IsNext :
    (left : ℕ) (s : Pollset) (cursor i what : ℕ)
    → i + left ≡ s.nfds
    → cursor ≤ i
    → ((j : ℕ) → cursor ≤ j → j < i → bit_and what (get_or s.fds j unused).revents ≡ 0)
    → IsNext s cursor what (next_from left s.fds (some what) i)
unfolding next_from
next_from-IsNext zero s cursor i what e le idle = λ j cj jn. idle j cj (omega arith)
next_from-IsNext (suc left) s cursor i what e le idle =
    let flags = bit_and what (get_or s.fds i unused).revents in
    elim (Bool-cases (flags == 0)) [
      | inl zero_flags ↦ rw zero_flags (
          next_from-IsNext left s cursor (i + 1) what (omega arith) (omega arith)
            (λ j cj ji. ground (arith, idle j cj)))
      | inr ready ↦ rw ready (i, omega arith, le, omega arith, refl, refl, ground arith, idle)
    ]

-- With flags to look for, pollset_next gives the first element from the cursor on that is ready,
-- with its flags and a cursor just behind it; if it gives none, no element from the cursor on is
-- ready. The cursor must be within the set.
pollset_next-IsNext :
    (s : Pollset) (cursor what : ℕ)
    → cursor ≤ s.nfds
    → IsNext s cursor what (pollset_next s cursor (some what))
unfolding pollset_next
pollset_next-IsNext s cursor what le =
    next_from-IsNext (s.nfds - cursor) s cursor cursor what (omega arith) (omega arith)
      (λ j cj jc. absurd (omega arith))
