-- ===== src/Daemon/Normalize/Rooted.antt =====
-- The leading slash that normalize_path() of tftpd/tftpd.c keeps.
use network_tftp_tftp_hpa.Prelude.{
  ℕ, ◌≡◌, ap, Bool, true, false, ◌&&◌, ◌||◌, List, [], ◌∷◌, arith, ◌==◌, inl, inr, Bool-cases,
}
use network_tftp_tftp_hpa.Daemon.Normalize.{to_slash, drop_level, normalize, in_front}

-- The first byte, which is at the end of what is written, is a slash.
abbrev pub IsRooted : List ℕ → Type 0
IsRooted [] = ⊥
IsRooted (c ∷ []) = c ≡ b'/'
IsRooted (c ∷ d ∷ out) = IsRooted (d ∷ out)

IsRooted-cons : (c : ℕ) (out : List ℕ) → IsRooted out → IsRooted (c ∷ out)
IsRooted-cons c [] h = elim h [ ]
IsRooted-cons c (d ∷ out) h = h

to_slash-IsRooted : (out : List ℕ) → IsRooted out → IsRooted (to_slash out)
unfolding to_slash
to_slash-IsRooted [] h = h
to_slash-IsRooted (c ∷ []) h = let slash : (c == b'/') ≡ true = ground (arith, h) in rw slash h
to_slash-IsRooted (c ∷ d ∷ out) h = elim (Bool-cases (c == b'/')) [
  | inl slash ↦ rw slash h
  | inr other ↦ rw other (to_slash-IsRooted (d ∷ out) h)
]

drop_level-IsRooted : (out : List ℕ) → IsRooted out → IsRooted (drop_level out)
unfolding drop_level
drop_level-IsRooted [] h = h
drop_level-IsRooted (c ∷ []) h = h
drop_level-IsRooted (c ∷ d ∷ out) h = to_slash-IsRooted (d ∷ out) h

pub normalize-IsRooted :
    (behind : Bool) (out p : List ℕ) → IsRooted out → IsRooted (normalize behind out p)
unfolding normalize
normalize-IsRooted true out [] h = h
normalize-IsRooted false out [] h = h
normalize-IsRooted false out (c ∷ p) h =
    normalize-IsRooted (c == b'/') (c ∷ out) p (IsRooted-cons c out h)
normalize-IsRooted true out (c ∷ []) h = elim (Bool-cases (c == b'/' || c == b'.')) [
  | inl skip ↦ rw skip h
  | inr plain ↦ rw plain (IsRooted-cons c out h)
]
normalize-IsRooted true out (c ∷ d ∷ []) h =
    elim (Bool-cases (c == b'/' || (c == b'.' && d == b'/'))) [
      | inl skip ↦ rw skip (normalize-IsRooted true out (d ∷ []) h)
      | inr on ↦ elim (Bool-cases (c == b'.' && d == b'.')) [
        | inl up ↦ rw (on, up) (drop_level-IsRooted out h)
        | inr plain ↦
            rw (on, plain) (normalize-IsRooted false (c ∷ out) (d ∷ []) (IsRooted-cons c out h))
      ]
    ]
normalize-IsRooted true out (c ∷ d ∷ e ∷ p) h =
    elim (Bool-cases (c == b'/' || (c == b'.' && d == b'/'))) [
      | inl skip ↦ rw skip (normalize-IsRooted true out (d ∷ e ∷ p) h)
      | inr on ↦ elim (Bool-cases (c == b'.' && (d == b'.' && e == b'/'))) [
        | inl up ↦
            rw (on, up)
              (normalize-IsRooted true (drop_level out) (e ∷ p) (drop_level-IsRooted out h))
        | inr plain ↦
            rw (on, plain) (normalize-IsRooted false (c ∷ out) (d ∷ e ∷ p) (IsRooted-cons c out h))
      ]
    ]

pub in_front-IsRooted : (out w : List ℕ) → IsRooted out → (r : List ℕ) × (in_front out w ≡ b'/' ∷ r)
unfolding in_front
in_front-IsRooted [] w h = elim h [ ]
in_front-IsRooted (c ∷ []) w h = (w, ap (λ d. d ∷ w) h)
in_front-IsRooted (c ∷ d ∷ out) w h = in_front-IsRooted (d ∷ out) (c ∷ w) h
