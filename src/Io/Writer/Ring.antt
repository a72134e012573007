-- ===== src/Io/Writer/Ring.antt =====
-- The ring of tftp-io.c: where the packets stand, and what is in them.
use network_tftp_tftp_hpa.Prelude.{
  ℕ, zero, suc, ◌+◌, ◌-◌, ◌≤◌, ◌<◌, ◌≡◌, ◌≢◌, refl, ap, ap₂, ◌∙◌, List, [], ◌++◌, append-nil,
  append_assoc, arith, ltb, if◌then◌else◌,
}
use network_tftp_tftp_hpa.Io.{io_next}

-- The slot that stands `k` places behind `h`.
unfoldable pub walk : (slots h k : ℕ) → ℕ
walk slots h zero = h
walk slots h (suc k) = walk slots (io_next slots h) k

pub walk_lem :
    (slots k h : ℕ)
    → h < slots
    → k ≤ slots
    → walk slots h k ≡ (if ltb (h + k) slots then h + k else h + k - slots)
unfolding walk io_next
walk_lem slots zero h hh hk = ground arith
walk_lem slots (suc k) h hh hk = ground (arith, walk_lem slots k (io_next slots h))

pub io_next-lt : (slots h : ℕ) → h < slots → io_next slots h < slots
unfolding io_next
io_next-lt slots h hh = ground arith

-- the places behind the next slot
pub walk_behind : (slots h k : ℕ) → walk slots (io_next slots h) k ≡ walk slots h (suc k)
unfolding walk
walk_behind slots h k = refl

pub walk-zero : (slots h : ℕ) → walk slots h 0 ≡ h
unfolding walk
walk-zero slots h = refl

-- As many places as there are slots lead back.
pub walk_round : (slots h n : ℕ) → h < slots → n ≡ slots → walk slots h n ≡ h
walk_round slots h n hh e = ground (arith, walk_lem slots n h)

-- Fewer places than there are slots never lead to the same slot.
pub walk-ne :
    (slots h : ℕ) {j k : ℕ}
    → h < slots
    → k ≤ slots
    → j < k
    → k - j < slots
    → walk slots h j ≢ walk slots h k
walk-ne slots h {j} {k} hh hk hjk d e = ground (arith, walk_lem slots j h, walk_lem slots k h)

pub walk-lt : (slots h k : ℕ) → h < slots → k ≤ slots → walk slots h k < slots
walk-lt slots h k hh hk = ground (arith, walk_lem slots k h)

pub walk-suc : (slots h k : ℕ) → io_next slots (walk slots h k) ≡ walk slots h (suc k)
unfolding walk
walk-suc slots h zero = refl
walk-suc slots h (suc k) = walk-suc slots (io_next slots h) k

module _ (slots : ℕ) where
  -- The bytes of `n` slots from `h` on, where `f` gives the bytes of a slot.
  pub gather : (f : ℕ → List ℕ) (h n : ℕ) → List ℕ
  gather f h zero = []
  gather f h (suc n) = f h ++ gather f (io_next slots h) n

  pub gather-cons :
      (f : ℕ → List ℕ) (h n : ℕ) → gather f h (suc n) ≡ f h ++ gather f (io_next slots h) n
  unfolding gather
  gather-cons f h n = refl

  pub gather-zero : (f : ℕ → List ℕ) (h : ℕ) → gather f h 0 ≡ []
  unfolding gather
  gather-zero f h = refl

  pub gather-suc :
      (f : ℕ → List ℕ) (h n : ℕ) → gather f h (suc n) ≡ gather f h n ++ f (walk slots h n)
  unfolding gather walk
  gather-suc f h zero = append-nil (f h)
  gather-suc f h (suc n) = ap (λ l. f h ++ l) (gather-suc f (io_next slots h) n) ∙ rw append_assoc

  pub gather-agree :
      (f g : ℕ → List ℕ) (h n : ℕ)
      → ((k : ℕ) → k < n → f (walk slots h k) ≡ g (walk slots h k))
      → gather f h n ≡ gather g h n
  unfolding gather walk
  gather-agree f g h zero agree = refl
  gather-agree f g h (suc n) agree =
      ap₂ (λ a b. a ++ b) (agree 0 (omega arith))
        (gather-agree f g (io_next slots h) n (λ k lt. agree (suc k) (omega arith)))
