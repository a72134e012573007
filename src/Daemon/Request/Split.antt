-- ===== src/Daemon/Request/Split.antt =====
-- The loop of tftp() on packets that are made of strings.
use network_tftp_tftp_hpa.Prelude.{
  ℕ, ◌≡◌, ◌≢◌, refl, true, List, [], ◌∷◌, ◌++◌, append_assoc, append-nil, arith, All,
}
use network_tftp_tftp_hpa.Daemon.Request.{strings_from}

-- A string that can stand in a packet: not empty, and without a NUL.
abbrev pub IsPlain : List ℕ → Type 0
IsPlain s = (s ≢ []) × All (λ c. c ≢ 0) s

-- Each string with its NUL.
abbrev pub packed : List (List ℕ) → List ℕ
packed [] = []
packed (s ∷ ss) = s ++ 0 ∷ packed ss

strings_from-bytes :
    (current s rest : List ℕ)
    → All (λ c. c ≢ 0) s
    → strings_from current (s ++ rest) ≡ strings_from (current ++ s) rest
unfolding strings_from
strings_from-bytes current [] rest h = rw append-nil
strings_from-bytes current (c ∷ s) rest h =
    ground
      (arith, strings_from-bytes (current ++ c ∷ []) s rest h.1, append_assoc current (c ∷ []) s)

strings_from-string :
    (s rest : List ℕ)
    → IsPlain s
    → strings_from [] (s ++ 0 ∷ rest)
      ≡ record (strings_from [] rest) { complete = s ∷ (strings_from [] rest).complete }
unfolding strings_from
strings_from-string [] rest h = absurd (h.0 refl)
strings_from-string (c ∷ s) rest h = ground (arith, strings_from-bytes [] (c ∷ s) (0 ∷ rest) h.1)

-- The loop of tftp() finds just the strings that a packet is made of, in their order, and that the
-- last one is terminated. No string may be empty or have a NUL inside.
pub strings_from-packed :
    (ss : List (List ℕ))
    → All IsPlain ss
    → strings_from [] (packed ss) ≡ record { complete = ss; terminated = true }
unfolding strings_from
strings_from-packed [] h = refl
strings_from-packed (s ∷ ss) h =
    ground (arith, strings_from-string s (packed ss) h.0, strings_from-packed ss h.1)
