-- ===== src/Daemon/Normalize.antt =====
-- tftpd/tftpd.c: normalize_path().
pub mod Clean
pub mod Rooted
use network_tftp_tftp_hpa.Prelude.{
  ℕ, Bool, true, false, ◌&&◌, ◌||◌, Option, none, some, List, [], ◌∷◌, ◌==◌, if◌then◌else◌,
}

-- enum normalizations
pub data Normalizations : Type 0 where
  norm_none norm_root norm_path : Normalizations

-- Steps q back to behind the last slash. What is written is there with the newest byte first.
unfoldable pub to_slash : List ℕ → List ℕ
to_slash [] = []
to_slash (c ∷ out) = let back = to_slash out in if c == b'/' then c ∷ out else back

-- Drops one level, if there is one: q > fn + 1.
unfoldable pub drop_level : List ℕ → List ℕ
unfolding to_slash
drop_level [] = []
drop_level (c ∷ []) = c ∷ []
drop_level (c ∷ d ∷ out) = to_slash (d ∷ out)

-- The loop from p on. `behind` is whether it is in the inner loop, behind a slash; a character that
-- ends the inner loop is copied in the same step.
unfoldable pub normalize : (behind : Bool) → (out p : List ℕ) → List ℕ
unfolding drop_level
normalize behind out [] = out
normalize false out (c ∷ p) = normalize (c == b'/') (c ∷ out) p
normalize true out (c ∷ []) = if c == b'/' || c == b'.' then out else c ∷ out
normalize true out (c ∷ d ∷ []) =
    let on = normalize true out (d ∷ []) in
    let copied = normalize false (c ∷ out) (d ∷ []) in
    if c == b'/' || (c == b'.' && d == b'/')
    then on
    else if c == b'.' && d == b'.'
    then drop_level out
    else copied
normalize true out (c ∷ d ∷ e ∷ p) =
    let on = normalize true out (d ∷ e ∷ p) in
    let up = normalize true (drop_level out) (e ∷ p) in
    let copied = normalize false (c ∷ out) (d ∷ e ∷ p) in
    if c == b'/' || (c == b'.' && d == b'/')
    then on
    else if c == b'.' && (d == b'.' && e == b'/')
    then up
    else copied

-- What is written, in order, before `s`.
unfoldable pub in_front : (out s : List ℕ) → List ℕ
in_front [] s = s
in_front (c ∷ out) s = in_front out (c ∷ s)

-- A leading slash.
abbrev pub rooted : List ℕ → List ℕ
rooted [] = b'/' ∷ []
rooted (c ∷ cs) = if c == b'/' then c ∷ cs else b'/' ∷ c ∷ cs

-- normalize_path; NULL is none.
unfoldable pub normalize_path : Normalizations → Option (List ℕ) → Option (List ℕ)
unfolding normalize in_front
normalize_path how none = none
normalize_path norm_none (some fn) = some fn
normalize_path norm_root (some fn) = some (rooted fn)
normalize_path norm_path (some fn) = some (in_front (normalize false [] (rooted fn)) [])
