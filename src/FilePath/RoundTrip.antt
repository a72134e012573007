-- ===== src/FilePath/RoundTrip.antt =====
-- parse_path on what build_path writes, and the size that build_path allocates.
use network_tftp_tftp_hpa.Prelude.{
  ℕ, ◌+◌, ◌≡◌, refl, Bool, true, false, Option, none, some, List, [], ◌∷◌, ◌++◌, append_assoc,
  append-nil, arith, ◌==◌, if◌then◌else◌, length, length-append, All, All-append,
}
use network_tftp_tftp_hpa.FilePath.{
  dropped_by, adjust_tail, count_dirs, end_component, scan, in_order, starts_with_slash, parse_path,
  join, build_path, build_size, dirs_size, prefix_of,
}
use network_tftp_tftp_hpa.FilePath.Clean.{
  IsNameChar, IsClean, IsKept, IsValidText, All-clean-IsKept,
}

end_component-plain :
    (strict : Bool) (d : List ℕ) (dirs : List (List ℕ))
    → dropped_by d ≡ 0
    → end_component strict (d ∷ dirs) ≡ some (d ∷ dirs)
unfolding end_component adjust_tail
end_component-plain strict d dirs e = ground arith

scan-name :
    (strict : Bool) (d cs : List ℕ) (dirs : List (List ℕ)) (rest : List ℕ)
    → All IsNameChar cs
    → scan strict false (d ∷ dirs) (cs ++ rest) ≡ scan strict false ((d ++ cs) ∷ dirs) rest
unfolding scan
scan-name strict d [] dirs rest h = rw append-nil
scan-name strict d (c ∷ cs) dirs rest h =
    ground (arith, scan-name strict (d ++ c ∷ []) cs dirs rest h.1, append_assoc d (c ∷ []) cs)

scan-join :
    (strict : Bool) (dirs : List (List ℕ)) (d : List ℕ) (done : List (List ℕ))
    → dropped_by d ≡ 0
    → All IsKept dirs
    → scan strict false (d ∷ done) (join dirs) ≡ some (in_order dirs (d ∷ done))
unfolding scan join
scan-join strict [] d done e h = end_component-plain strict d done e
scan-join strict ([] ∷ dirs) d done e h = absurd (h.0.0.0 refl)
scan-join strict ((c ∷ cs) ∷ dirs) d done e h = ground (
  arith,
  end_component-plain strict d done e,
  scan-name strict (c ∷ []) cs (d ∷ done) (join dirs) h.0.0.1.1,
  scan-join strict dirs (c ∷ cs) (d ∷ done) h.0.1 h.1,
)

count_dirs-valid_text :
    (was_slash : Bool) (path : List ℕ)
    → IsValidText path
    → (n : ℕ) × (count_dirs was_slash path ≡ some n)
unfolding count_dirs
count_dirs-valid_text was_slash [] v = (0, refl)
count_dirs-valid_text was_slash (c ∷ cs) v =
    let rest = count_dirs-valid_text (c == b'/') cs v.1 in
    ((if c == b'/' then 0 else if was_slash then 1 else 0) + rest.0, ground (arith, rest.1))

name-IsValidText : (d : List ℕ) → All IsNameChar d → IsValidText d
name-IsValidText [] h = tt
name-IsValidText (c ∷ cs) h = (ground arith, name-IsValidText cs h.1)

join-IsValidText : (dirs : List (List ℕ)) → All IsKept dirs → IsValidText (join dirs)
unfolding join
join-IsValidText [] h = tt
join-IsValidText (d ∷ dirs) h =
    (refl, All-append _ d (join dirs) (name-IsValidText d h.0.0.1) (join-IsValidText dirs h.1))

in_order_twice : (xs done : List (List ℕ)) → in_order (in_order xs done) [] ≡ in_order done xs
in_order_twice [] done = refl
in_order_twice (x ∷ xs) done = in_order_twice xs (x ∷ done)

scan-first :
    (strict : Bool) (dirs : List (List ℕ))
    → All IsKept dirs
    → scan strict true [] (join dirs) ≡ some (in_order dirs [])
unfolding scan join
scan-first strict [] h = refl
scan-first strict ([] ∷ dirs) h = absurd (h.0.0.0 refl)
scan-first strict ((c ∷ cs) ∷ dirs) h = ground (
  arith,
  scan-name strict (c ∷ []) cs [] (join dirs) h.0.0.1.1,
  scan-join strict dirs (c ∷ cs) [] h.0.1 h.1,
)

join-slash : (d : List ℕ) (dirs : List (List ℕ)) → starts_with_slash (join (d ∷ dirs)) ≡ true
unfolding join
join-slash d dirs = refl

-- A list of components that are neither empty nor "." nor ".." and have no slash and no control
-- character in them is what parse_path returns, strict or not, for the path that build_path makes
-- of it without a prefix. The list is not empty, because a strict path starts with a slash.
pub parse_path-build_path :
    (d : List ℕ) (dirs : List (List ℕ)) (strict : Bool)
    → All IsClean (d ∷ dirs)
    → parse_path (build_path none (d ∷ dirs)) strict ≡ some (d ∷ dirs)
unfolding parse_path build_path
parse_path-build_path d dirs strict clean =
    let h = All-clean-IsKept (d ∷ dirs) clean in
    let counted = count_dirs-valid_text true (join (d ∷ dirs)) (join-IsValidText (d ∷ dirs) h) in
    ground (
      arith,
      counted.1,
      join-slash d dirs,
      scan-first strict (d ∷ dirs) h,
      in_order_twice (d ∷ dirs) [],
    )

length-join : (dirs : List (List ℕ)) → length (join dirs) ≡ dirs_size dirs
unfolding join dirs_size
length-join [] = refl
length-join (d ∷ dirs) = grind (arith, length-append d (join dirs), length-join dirs)

-- build_path allocates what it writes and the NUL after it, no more and no less.
pub build_size-length :
    (prefix : Option (List ℕ)) (dirs : List (List ℕ))
    → build_size prefix dirs ≡ length (build_path prefix dirs) + 1
unfolding build_size build_path
build_size-length prefix dirs =
    grind (arith, length-append (prefix_of prefix) (join dirs), length-join dirs)
