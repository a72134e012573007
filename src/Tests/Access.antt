-- ===== src/Tests/Access.antt =====
-- A read request for a file below a permitted directory.
use network_tftp_tftp_hpa.Prelude.{ℕ, ◌≡◌, refl, true, false, none, some, List, [], ◌∷◌, ◌++◌, All}
use network_tftp_tftp_hpa.FilePath.{parse_path, build_path}
use network_tftp_tftp_hpa.FilePath.Clean.{IsClean}
use network_tftp_tftp_hpa.Daemon.{tsize_read}
use network_tftp_tftp_hpa.Daemon.Normalize.{normalize_path}
use network_tftp_tftp_hpa.Daemon.Normalize.Clean.{IsNormal, normalize_path-IsNormal}
use network_tftp_tftp_hpa.Daemon.Access.{AccessOptions, FileCalls, validate_access}
use network_tftp_tftp_hpa.Daemon.Access.Confined.{Listed, Permitted, validate_access-confined}

-- "/a" is the only directory.
abbrev served : AccessOptions
served = record {
  validate = true;
  dirs = ((b'a' ∷ []) ∷ []) ∷ [];
  path_prefix = none;
  cancreate = false;
  unixperms = false;
}

-- Every file is there, and readable for all.
abbrev calls : FileCalls
calls = record {
  os_open = λ name mode. (0, some (record { others_read = true; others_write = false; size = 7 }));
  lock_file = λ name exclusive. false;
  ftruncate = λ name. false;
}

abbrev wanted : List ℕ
wanted = b'/' ∷ b'a' ∷ b'/' ∷ b'b' ∷ []

validate_access-confined_example :
    (dir : List (List ℕ)) × (more : List (List ℕ)) × Listed dir (((b'a' ∷ []) ∷ []) ∷ [])
    × (parse_path wanted true ≡ some (dir ++ more))
    × All IsClean (dir ++ more)
    × (wanted ≡ build_path none (dir ++ more))
    × Permitted calls served true false wanted
unfolding validate_access
validate_access-confined_example =
    validate_access-confined calls served wanted wanted true false tsize_read 7 none refl refl

-- "a/../..//b/./c/"
abbrev messy : List ℕ
messy =
    b'a' ∷ b'/' ∷ b'.' ∷ b'.' ∷ b'/' ∷ b'.' ∷ b'.' ∷ b'/' ∷ b'/' ∷ b'b' ∷ b'/' ∷ b'.' ∷ b'/' ∷ b'c'
    ∷ b'/' ∷ []

abbrev tidy : List ℕ
tidy = b'/' ∷ b'b' ∷ b'/' ∷ b'c' ∷ b'/' ∷ []

normalize_path-IsNormal_example : ((r : List ℕ) × (tidy ≡ b'/' ∷ r)) × IsNormal tidy
unfolding normalize_path
normalize_path-IsNormal_example = normalize_path-IsNormal messy {s = tidy} refl
