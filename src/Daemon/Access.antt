-- ===== src/Daemon/Access.antt =====
-- tftpd/tftpd.c: validate_access() without WITH_JAIL and with HAVE_FTRUNCATE, the check of a file's
-- name and the opening of the file.
pub mod Confined
use Prim.Native.Nat.{bit_and}
use network_tftp_tftp_hpa.Prelude.{
  ℕ, Bool, true, false, not, ◌&&◌, Option, none, some, List, [], ◌∷◌, ◌==◌, if◌then◌else◌,
}
use network_tftp_tftp_hpa.FilePath.{parse_path, build_path, compare_paths}
use network_tftp_tftp_hpa.Daemon.{TsizeMode, tsize_nak, tsize_read, tsize_write}

-- What validate_access reads of struct daemon_options.
pub record AccessOptions : Type 0 where
  pub validate : Bool
  pub dirs : List (List (List ℕ))
  pub path_prefix : Option (List ℕ)
  pub cancreate : Bool
  pub unixperms : Bool

-- The messages that go with EACCESS.
pub data Refusal : Type 0 where
  invalid_pathname forbidden_directory not_readable not_writable cannot_reset : Refusal

-- omode
pub record OpenMode : Type 0 where
  pub text : Bool
  pub wronly : Bool
  pub creat : Bool
  pub nofollow : Bool

-- What fstat() tells: st_mode & S_IROTH, st_mode & S_IWOTH, and st_size.
pub record Stat : Type 0 where
  pub others_read : Bool
  pub others_write : Bool
  pub size : ℕ

-- The calls of the operating system for the file that a name stands for. open() gives errno or what
-- fstat() then tells; lock_file() and ftruncate() tell whether they fail.
pub record FileCalls : Type 0 where
  pub os_open : List ℕ → OpenMode → (ℕ × Option Stat)
  pub lock_file : List ℕ → (exclusive : Bool) → Bool
  pub ftruncate : List ℕ → Bool

-- What validate_access comes to: 0, and then the name of the file that is opened, tsize and
-- unlink_info; EACCESS with a message; an errno of open(); or exit(0) while another process has
-- the lock.
pub data Access : Type 0 where
  granted : (filename : List ℕ) → TsizeMode → (size : ℕ) → (unlink_info : Option (List ℕ)) → Access
  refused : Refusal → Access
  open_error : ℕ → Access
  locked : Access

-- The search in dopt.dirs for a directory that the path is in.
unfoldable pub in_dirs : (pathlist : List (List ℕ)) → List (List (List ℕ)) → Bool
unfolding compare_paths
in_dirs pathlist [] = false
in_dirs pathlist (dir ∷ dirs) =
    let later = in_dirs pathlist dirs in
    if bit_and (compare_paths pathlist dir) 2 == 0 then later else true

abbrev pub open_mode : AccessOptions → (is_read f_convert : Bool) → OpenMode
open_mode dopt is_read f_convert = record {
  text = f_convert;
  wronly = not is_read;
  creat = not is_read && dopt.cancreate;
  nofollow = not is_read && dopt.cancreate;
}

-- What is done with a file that is open and locked.
unfoldable pub check_file :
    FileCalls → AccessOptions → (is_read f_convert : Bool) → (filename : List ℕ) → Stat → Access
check_file os dopt is_read f_convert filename st =
    if is_read
    then (if not dopt.unixperms && not st.others_read
        then refused not_readable
        else granted filename (if f_convert then tsize_nak else tsize_read) st.size none)
    else if not dopt.unixperms && not st.others_write
    then refused not_writable
    else if os.ftruncate filename
    then refused cannot_reset
    else granted filename tsize_write 0 (if dopt.cancreate then some filename else none)

-- From the final file name on.
unfoldable pub open_file :
    FileCalls → AccessOptions → (is_read f_convert : Bool) → (filename : List ℕ) → Access
unfolding check_file
open_file os dopt is_read f_convert filename =
    let opened = os.os_open filename (open_mode dopt is_read f_convert) in
    elim opened.1 [
      | none ↦ open_error opened.0
      | some st ↦
          if os.lock_file filename (not is_read)
          then locked
          else check_file os dopt is_read f_convert filename st
    ]

-- validate_access; `is_read` is mode == RRQ.
unfoldable pub validate_access :
    FileCalls → AccessOptions → (filename : List ℕ) → (is_read f_convert : Bool) → Access
unfolding parse_path in_dirs build_path open_file
validate_access os dopt filename is_read f_convert =
    if dopt.validate
    then elim (parse_path filename true) [
      | none ↦ refused invalid_pathname
      | some pathlist ↦
          if in_dirs pathlist dopt.dirs
          then open_file os dopt is_read f_convert (build_path dopt.path_prefix pathlist)
          else refused forbidden_directory
    ]
    else open_file os dopt is_read f_convert filename
