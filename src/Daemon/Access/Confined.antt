-- ===== src/Daemon/Access/Confined.antt =====
-- Which files validate_access() of tftpd/tftpd.c opens.
use Prim.Native.Nat.{bit_and}
use network_tftp_tftp_hpa.Prelude.{
  ℕ, ◌≡◌, ◌⊎◌, refl, sym, ap, ◌∙◌, subst, Bool, true, false, not, Option, some, List, [], ◌∷◌, ◌++◌,
  All, arith, ◌==◌, if◌then◌else◌, inl, inr, Bool-cases, Option-cases,
}
use network_tftp_tftp_hpa.FilePath.{parse_path, build_path, compare_paths, str_eq}
use network_tftp_tftp_hpa.FilePath.Clean.{IsClean, parse_path-IsClean}
use network_tftp_tftp_hpa.FilePath.Prefix.{str_eq_sound}
use network_tftp_tftp_hpa.Daemon.{TsizeMode}
use network_tftp_tftp_hpa.Daemon.Access.{
  AccessOptions, FileCalls, Stat, granted, in_dirs, open_mode, check_file, open_file,
  validate_access,
}

-- A directory of the list.
abbrev pub Listed : List (List ℕ) → List (List (List ℕ)) → Type 0
Listed dir [] = ⊥
Listed dir (d ∷ ds) = (dir ≡ d) ⊎ Listed dir ds

under :
    (ps dir : List (List ℕ))
    → (bit_and (compare_paths ps dir) 2 == 0) ≡ false
    → (more : List (List ℕ)) × (ps ≡ dir ++ more)
unfolding compare_paths
under ps [] e = (ps, refl)
under [] (d ∷ dir) e = absurd (ground arith)
under (p ∷ ps) (d ∷ dir) e = elim (Bool-cases (str_eq p d)) [
  | inl same ↦
      let (more, whole) = under ps dir (rw (compare_paths, same) at e) in
      (more, ground (arith, str_eq_sound p d same, whole))
  | inr other ↦ absurd (ground arith)
]

in_dirs-Listed :
    (ps : List (List ℕ)) (dirs : List (List (List ℕ)))
    → in_dirs ps dirs ≡ true
    → (dir : List (List ℕ)) × (more : List (List ℕ)) × Listed dir dirs × (ps ≡ dir ++ more)
unfolding in_dirs
in_dirs-Listed ps [] e = absurd (ground arith)
in_dirs-Listed ps (d ∷ ds) e = elim (Bool-cases (bit_and (compare_paths ps d) 2 == 0)) [
  | inl other ↦
      let (dir, more, there, whole) = in_dirs-Listed ps ds (rw (in_dirs, other) at e) in
      (dir, more, inr there, whole)
  | inr here ↦ let (more, whole) = under ps d here in (d, more, inl refl, whole)
]

-- What a file that is opened has passed.
abbrev pub Permitted :
    FileCalls → AccessOptions → (is_read f_convert : Bool) → (name : List ℕ) → Type 0
Permitted os dopt is_read f_convert name =
    (st : Stat) × ((os.os_open name (open_mode dopt is_read f_convert)).1 ≡ some st)
    × (os.lock_file name (not is_read) ≡ false)
    × (dopt.unixperms ≡ false → (if is_read then st.others_read else st.others_write) ≡ true)

open_file-Permitted :
    (os : FileCalls) (dopt : AccessOptions) (is_read f_convert : Bool) (filename name : List ℕ)
    (mode : TsizeMode) (size : ℕ) (unlink_info : Option (List ℕ))
    → open_file os dopt is_read f_convert filename ≡ granted name mode size unlink_info
    → (name ≡ filename) × Permitted os dopt is_read f_convert name
unfolding open_file check_file
open_file-Permitted os dopt is_read f_convert filename name mode size unlink_info e =
    elim (Option-cases (os.os_open filename (open_mode dopt is_read f_convert)).1) [
      | inl bad ↦ absurd (ground (arith, bad))
      | inr (st, there) ↦ elim (Bool-cases (os.lock_file filename (not is_read))) [
        | inl busy ↦ absurd (ground (arith, there, busy))
        | inr free ↦
            let same : name ≡ filename = ground (arith, there, free) in
            (
              same,
              subst (Permitted os dopt is_read f_convert) (sym same)
                  (st, there, free, λ u. ground (arith, there, free)),
            )
      ]
    ]

-- With dopt.validate, a file that validate_access opens has a name made of the prefix and of the
-- components of the requested name, which are neither empty nor "." nor ".." and have no slash and
-- no character below the space in them (127, DEL, may be in them), and which begin with all
-- components of a directory of dopt.dirs. Its lock is held. If moreover dopt.unixperms is off, others
-- may read the file, or for an upload write it; with dopt.unixperms nothing is said of that.
pub validate_access-confined :
    (os : FileCalls) (dopt : AccessOptions) (filename name : List ℕ) (is_read f_convert : Bool)
    (mode : TsizeMode) (size : ℕ) (unlink_info : Option (List ℕ))
    → dopt.validate ≡ true
    → validate_access os dopt filename is_read f_convert ≡ granted name mode size unlink_info
    → (dir : List (List ℕ)) × (more : List (List ℕ)) × Listed dir dopt.dirs
      × (parse_path filename true ≡ some (dir ++ more))
      × All IsClean (dir ++ more)
      × (name ≡ build_path dopt.path_prefix (dir ++ more))
      × Permitted os dopt is_read f_convert name
unfolding validate_access
validate_access-confined os dopt filename name is_read f_convert mode size unlink_info on e =
    elim (Option-cases (parse_path filename true)) [
      | inl bad ↦ absurd (ground (arith, on, bad))
      | inr (ps, parsed) ↦ elim (Bool-cases (in_dirs ps dopt.dirs)) [
        | inr outside ↦ absurd (ground (arith, on, parsed, outside))
        | inl inside ↦
            let (dir, more, there, whole) = in_dirs-Listed ps dopt.dirs inside in
            let (same, permitted) =
              open_file-Permitted os dopt is_read f_convert (build_path dopt.path_prefix ps) name
                mode size unlink_info (ground (arith, on, parsed, inside)) in
            (
              dir,
              more,
              there,
              parsed ∙ ap some whole,
              subst (All IsClean) whole (parse_path-IsClean filename true ps parsed),
              same ∙ ap (build_path dopt.path_prefix) whole,
              permitted,
            )
      ]
    ]
