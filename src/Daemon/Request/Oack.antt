-- ===== src/Daemon/Request/Oack.antt =====
-- What the OACK of build_oack() says to a client that reads it.
use network_tftp_tftp_hpa.Prelude.{
  ℕ, suc, list-cases, ◌+◌, ◌≡◌, ◌≢◌, refl, ap, ◌∙◌, true, false, Option, none, some, List, [], ◌∷◌,
  ◌++◌, append_assoc, arith, length, take, All, if◌then◌else◌, Bool-cases, ◌⊎◌, inl, inr,
}
use network_tftp_tftp_hpa.Daemon.{ProtocolOption, Daemon, opt_granted}
use network_tftp_tftp_hpa.Daemon.Request.{
  strings_from, oack_stuff, build_oack, refreshed, options_of, unless_empty,
}
use network_tftp_tftp_hpa.Daemon.Request.Split.{IsPlain, packed, strings_from-packed}

-- An option as parse_option leaves one that was requested: its name has the length of the canonical
-- name, and the data is counted with its NUL.
abbrev pub IsTaken : ProtocolOption → Type 0
IsTaken po =
    (length po.client_name ≡ length po.name)
    × IsPlain po.client_name
    × IsPlain (refreshed po).str
    × ((refreshed po).dsize ≡ length (refreshed po).str + 1)

-- The names and values of the granted options.
abbrev pub granted_strings : List ProtocolOption → List (List ℕ)
granted_strings [] = []
granted_strings (po ∷ more) =
    if opt_granted po
    then po.client_name ∷ (refreshed po).str ∷ granted_strings more
    else granted_strings more

abbrev pub AreTaken : List ProtocolOption → Type 0
AreTaken = All (λ po. (opt_granted po ≡ false) ⊎ IsTaken po)

take-all : (s : List ℕ) → take (suc (length s)) (s ++ 0 ∷ []) ≡ s ++ 0 ∷ []
take-all [] = refl
take-all (c ∷ s) = ap (λ t. c ∷ t) (take-all s)

pub oack_stuff-packed :
    (pos : List ProtocolOption) → AreTaken pos → oack_stuff pos ≡ packed (granted_strings pos)
unfolding oack_stuff
oack_stuff-packed [] h = refl
oack_stuff-packed (po ∷ pos) (inl out, h) = ground (arith, oack_stuff-packed pos h)
oack_stuff-packed (po ∷ pos) (inr ok, h) =
    let name : length po.name + 1 ≡ suc (length po.client_name) = ground arith in
    let later = oack_stuff-packed pos h in
    let n : take (length po.name + 1) (po.client_name ++ 0 ∷ []) ≡ po.client_name ++ 0 ∷ [] =
      rw name (take-all po.client_name) in
    let size : (refreshed po).dsize ≡ suc (length (refreshed po).str) = ground arith in
    let v : take (refreshed po).dsize ((refreshed po).str ++ 0 ∷ [])
        ≡ (refreshed po).str ++ 0 ∷ [] =
      rw size (take-all (refreshed po).str) in
    grind (arith, n, v, later, append_assoc)

granted_strings-IsPlain :
    (pos : List ProtocolOption) → AreTaken pos → All IsPlain (granted_strings pos)
granted_strings-IsPlain [] h = tt
granted_strings-IsPlain (po ∷ pos) h = elim (Bool-cases (opt_granted po)) [
  | inl g ↦ elim h.0 [
    | inl out ↦ absurd (ground arith)
    | inr ok ↦ rw g (ok.1, (ok.2, granted_strings-IsPlain pos h.1))
  ]
  | inr n ↦ rw n (granted_strings-IsPlain pos h.1)
]

pub packed-unless_empty :
    (ss : List (List ℕ)) → All IsPlain ss → ss ≢ [] → unless_empty (packed ss) ≡ some (packed ss)
packed-unless_empty [] h n = absurd (n refl)
packed-unless_empty ([] ∷ ss) h n = absurd (h.0.0 refl)
packed-unless_empty ((c ∷ s) ∷ ss) h n = refl

-- Either there is no packet and no option is granted, or the packet reads, by the loop that reads
-- a request, as just the client's names of the granted options and their values, in the order of
-- the table.
abbrev pub Announces : Option (List ℕ) → List ProtocolOption → Type 0
Announces packet pos =
    ((packet ≡ none) × (granted_strings pos ≡ []))
    ⊎ ((bytes : List ℕ) × (packet ≡ some bytes)
        × (strings_from [] bytes ≡ record { complete = granted_strings pos; terminated = true }))

-- If every granted option is as parse_option leaves one that was requested, then the OACK that
-- build_oack makes announces, in the sense of Announces, just the granted options and their values.
pub build_oack-strings :
    (d : Daemon) → AreTaken (options_of d) → Announces (build_oack d) (options_of d)
unfolding build_oack
build_oack-strings d h =
    let bytes = oack_stuff-packed (options_of d) h in
    let plain = granted_strings-IsPlain (options_of d) h in
    let back = strings_from-packed (granted_strings (options_of d)) plain in
    elim (list-cases (granted_strings (options_of d))) [
      | inl e ↦ inl (rw (bytes ∙ ap packed e) refl, e)
      | inr (x, xs, e) ↦ inr (
        packed (granted_strings (options_of d)),
        rw bytes (packed-unless_empty (granted_strings (options_of d)) plain (λ q. cc)),
        back,
      )
    ]
