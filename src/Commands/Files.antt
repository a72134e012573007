-- ===== src/Commands/Files.antt =====
-- tftp/main.c: the host, and the commands that transfer files.
pub mod Get
pub mod Tail
pub mod Sent
use network_tftp_tftp_hpa.Prelude.{
  ℕ, zero, suc, ◌+◌, Bool, true, false, not, ◌&&◌, ◌||◌, Option, none, some, List, [], ◌∷◌, ◌++◌,
  length, ◌==◌, if◌then◌else◌,
}
use network_tftp_tftp_hpa.Text.Codes.{codes}
use network_tftp_tftp_hpa.Commands.{no_bytes}
use network_tftp_tftp_hpa.Commands.Modes.{ex_usage, more_args}

-- strrchr() with '/': the string before the last slash and the string behind it.
unfoldable pub strrchr : List ℕ → Option (List ℕ × List ℕ)
strrchr [] = none
strrchr (c ∷ cs) = elim (strrchr cs) [
  | none ↦ if c == b'/' then some ([], cs) else none
  | some (front, back) ↦ some (c ∷ front, back)
]

-- The loop of tail: the string in `filename` after it, and the string that is returned.
unfoldable pub tail_from : (rounds : ℕ) → (filename : List ℕ) → List ℕ × List ℕ
unfolding strrchr
tail_from zero filename = (filename, filename)
tail_from (suc rounds) filename = elim (strrchr filename) [
  | none ↦ (filename, filename)
  | some (front, []) ↦ tail_from rounds front
  | some (front, c ∷ back) ↦ (filename, c ∷ back)
]

unfoldable pub tail : (filename : List ℕ) → List ℕ × List ℕ
unfolding tail_from
tail filename = tail_from (length filename) filename

-- is_directory: the last byte is a slash.
unfoldable pub is_directory : List ℕ → Bool
is_directory [] = false
is_directory (c ∷ []) = c == b'/'
is_directory (c ∷ d ∷ cs) = is_directory (d ∷ cs)

-- strchr() with ':'.
unfoldable pub at_colon : List ℕ → Option (List ℕ × List ℕ)
at_colon [] = none
at_colon (c ∷ cs) =
    let later : Option (List ℕ × List ℕ) = elim (at_colon cs) [
      | none ↦ none
      | some (front, back) ↦ some (c ∷ front, back)
    ] in
    if c == b':' then some ([], cs) else later

abbrev pub has_colon : List ℕ → Bool
has_colon s = elim (at_colon s) [ none ↦ false | some parts ↦ true ]

abbrev pub any_colon : List (List ℕ) → Bool
any_colon [] = false
any_colon (s ∷ ss) = has_colon s || any_colon ss

abbrev pub all_colon : List (List ℕ) → Bool
all_colon [] = true
all_colon (s ∷ ss) = has_colon s && all_colon ss

-- The exit codes of sysexits.h.
abbrev pub ex_noinput : ℕ
ex_noinput = 66

abbrev pub ex_nohost : ℕ
ex_nohost = 68

abbrev pub ex_oserr : ℕ
ex_oserr = 71

-- The fields of `serv` that the commands read, and its port.
pub record Server : Type 0 where
  pub connected : Bool
  pub host : List ℕ
  pub port : List ℕ

-- What set_sock_addr() answers: 0, EAI_SERVICE, or another error.
pub data Looked : Type 0 where
  found bad_service unknown_host : Looked

-- A call of tftp_sendfile() or tftp_recvfile().
pub record Call : Type 0 where
  pub server : Server
  pub local : List ℕ
  pub remote : List ℕ

-- `calls` are the transfers so far.
pub record Client : Type 0 where
  pub serv : Server
  pub calls : List Call

-- The target and the files before it.
abbrev pub split_last : (file : List ℕ) → List (List ℕ) → List (List ℕ) × List ℕ
split_last file [] = ([], file)
split_last file (next ∷ files) = let (before, last) = split_last next files in (file ∷ before, last)

-- `look_up` is set_sock_addr(), `can_open` tells whether open() gives a descriptor, and `transfer`
-- what a transfer returns, the last one of the given list; none if timer() leaves it.
module _ (look_up : (host port : List ℕ) → Looked) (can_open : List ℕ → Bool)
    (transfer : List Call → Option ℕ) (literal : Bool) where
  unfoldable pub set_transfer_host :
      (host : List ℕ) → (port : Option (List ℕ)) → Server → ℕ × Server
  set_transfer_host host port serv =
      let service : List ℕ = elim port [
        | none ↦ codes "tftp"
        | some p ↦ if no_bytes p then codes "tftp" else p
      ] in
      elim (look_up host service) [
        | found ↦ (0, record { connected = true; host = host; port = service })
        | bad_service ↦ (ex_usage, record { connected = false; host = host; port = service })
        | unknown_host ↦ (ex_nohost, record { connected = false; host = host; port = service })
      ]

  -- setpeer; `line` is as in more_args.
  unfoldable pub setpeer : (line : Option (List ℕ)) → (argv : List (List ℕ)) → Server → ℕ × Server
  unfolding set_transfer_host
  setpeer line argv serv = elim (more_args (codes "connect ") line argv) [
    | some (cmd ∷ host ∷ []) ↦ set_transfer_host host none serv
    | some (cmd ∷ host ∷ port ∷ []) ↦ set_transfer_host host (some port) serv
    | _ ↦ (ex_usage, serv)
  ]

  -- A transfer of `local` and `remote`: what it returns, and the client after it.
  abbrev pub transfer_file : (local remote : List ℕ) → Client → Option ℕ × Client
  transfer_file local remote c =
      let calls = c.calls ++ record { server = c.serv; local = local; remote = remote } ∷ [] in
      (transfer calls, record c { calls = calls })

  -- The loop of putfiles over the files.
  unfoldable pub put_each : (targ : List ℕ) → List (List ℕ) → (err : ℕ) → Client → Option ℕ × Client
  unfolding tail
  put_each targ [] err c = (some err, c)
  put_each targ (file ∷ files) err c =
      let (local, base) = tail file in
      let (result, after) = transfer_file local (targ ++ b'/' ∷ base) c in
      let skipped = put_each targ files (if err == 0 then ex_oserr else err) c in
      let sent : Option ℕ × Client = elim result [
        | none ↦ (none, after)
        | some code ↦ put_each targ files (if err == 0 then code else err) after
      ] in
      if can_open local then sent else skipped

  -- putfiles with one file.
  abbrev pub put_one : (local remote : List ℕ) → Client → Option ℕ × Client
  put_one local remote c =
      if can_open local then transfer_file local remote c else (some ex_noinput, c)

  -- putfiles from the test of serv.connected on; `files` is argv without the command and the target.
  unfoldable pub put_to :
      (target_is_directory : Bool)
      → (targ : List ℕ) → (files : List (List ℕ)) → Client
      → Option ℕ × Client
  unfolding tail is_directory put_each
  put_to target_is_directory targ files c =
      let several = put_each targ files 0 c in
      let one : Option ℕ × Client = elim files [
        | [] ↦ put_one (tail targ).1 (tail targ).0 c
        | file ∷ [] ↦ if is_directory targ then several else put_one file targ c
        | _ ↦ several
      ] in
      if not c.serv.connected
      then (some ex_usage, c)
      else if target_is_directory
      then several
      else one

  unfoldable pub putfiles :
      (target_is_directory : Bool)
      → (line : Option (List ℕ)) → (argv : List (List ℕ)) → Client
      → Option ℕ × Client
  unfolding at_colon set_transfer_host put_to
  putfiles target_is_directory line argv c = elim (more_args (codes "send ") line argv) [
    | some (cmd ∷ file ∷ more) ↦
        let (files, last) = split_last file more in
        let plain = put_to target_is_directory last files c in
        elim (at_colon last) [
          | none ↦ plain
          | some (host, targ) ↦
              let (err, serv) = set_transfer_host host none c.serv in
              let client : Client = record c { serv = serv } in
              let there = put_to target_is_directory targ files client in
              if literal
              then plain
              else if any_colon files
              then (some ex_usage, c)
              else if err == 0
              then there
              else (some ex_nohost, client)
        ]
    | _ ↦ (some ex_usage, c)
  ]

  unfoldable pub put :
      (line : Option (List ℕ)) → (argv : List (List ℕ)) → Client → Option ℕ × Client
  unfolding putfiles
  put line argv c = putfiles false line argv c

  unfoldable pub mput :
      (line : Option (List ℕ)) → (argv : List (List ℕ)) → Client → Option ℕ × Client
  unfolding putfiles
  mput line (cmd ∷ file ∷ target ∷ more) c = putfiles true line (cmd ∷ file ∷ target ∷ more) c
  mput line argv c = (some ex_usage, c)
