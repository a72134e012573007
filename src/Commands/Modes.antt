-- ===== src/Commands/Modes.antt =====
-- tftp/main.c: the commands that set options of the client.
use network_tftp_tftp_hpa.Prelude.{
  ℕ, ◌≡◌, ◌≢◌, refl, ap, sym, Bool-cases, inl, inr, Bool, false, not, Option, none, some, List, [],
  ◌∷◌, ◌++◌, All, ◌==◌, arith, if◌then◌else◌,
}
use network_tftp_tftp_hpa.Packet.{min_segsize}
use network_tftp_tftp_hpa.FilePath.{str_eq}
use network_tftp_tftp_hpa.FilePath.Prefix.{str_eq_sound}
use network_tftp_tftp_hpa.Text.Codes.{codes}
use network_tftp_tftp_hpa.Daemon.Blksize.{BlksizeArg}
use network_tftp_tftp_hpa.Arguments.{bad_num, parse_uint, parse_blocksize_arg}
use network_tftp_tftp_hpa.Commands.{makeargv}

-- struct modes; a null pointer is none.
pub record ModeEntry : Type 0 where
  pub m_name : Option (List ℕ)
  pub m_mode : Option (List ℕ)

abbrev pub mode_entry : (m_name m_mode : List ℕ) → ModeEntry
mode_entry m_name m_mode = record { m_name = some m_name; m_mode = some m_mode }

-- The entry at the end of the table.
abbrev pub no_mode : ModeEntry
no_mode = record { m_name = none; m_mode = none }

abbrev pub mode_netascii : ModeEntry
mode_netascii = mode_entry (codes "netascii") (codes "netascii")

abbrev pub mode_octet : ModeEntry
mode_octet = mode_entry (codes "octet") (codes "octet")

abbrev pub modes : List ModeEntry
modes =
    mode_netascii
    ∷ mode_entry (codes "ascii") (codes "netascii")
    ∷ mode_octet
    ∷ mode_entry (codes "binary") (codes "octet")
    ∷ mode_entry (codes "image") (codes "octet")
    ∷ []

-- The fields of copt and xopt that the commands set.
pub record Options : Type 0 where
  pub mode : ModeEntry
  pub literal : Bool
  pub tsize : Bool
  pub no_options : Bool
  pub trace : Bool
  pub max_windowsize : ℕ
  pub blksize : BlksizeArg

abbrev pub is_named : List ℕ → ModeEntry → Bool
is_named arg p = elim p.m_name [ none ↦ false | some name ↦ str_eq arg name ]

-- The loop of modecmd, which is that of the option --mode too.
unfoldable pub find_mode_entry : List ℕ → List ModeEntry → ModeEntry
unfolding str_eq
find_mode_entry arg [] = no_mode
find_mode_entry arg (p ∷ ps) =
    let later = find_mode_entry arg ps in if is_named arg p then p else later

-- The exit code EX_USAGE.
abbrev pub ex_usage : ℕ
ex_usage = 64

unfoldable pub settftpmode : (newmode : Option ModeEntry) → Options → ℕ × Options
settftpmode none o = (ex_usage, o)
settftpmode (some m) o = (0, record o { mode = m })

unfoldable pub modecmd : (argv : List (List ℕ)) → Options → ℕ × Options
unfolding find_mode_entry settftpmode
modecmd [] o = (0, o)
modecmd (cmd ∷ []) o = (0, o)
modecmd (cmd ∷ arg ∷ []) o =
    let (err, o') = settftpmode (some (find_mode_entry arg modes)) o in
    if err == 0 then (0, o') else (ex_usage, o')
modecmd (cmd ∷ arg ∷ more ∷ rest) o = (ex_usage, o)

unfoldable pub setbinary : Options → ℕ × Options
unfolding settftpmode
setbinary o = settftpmode (some mode_octet) o

unfoldable pub setascii : Options → ℕ × Options
unfolding settftpmode
setascii o = settftpmode (some mode_netascii) o

unfoldable pub setliteral : Options → ℕ × Options
setliteral o = (0, record o { literal = not o.literal })

unfoldable pub settsize : Options → ℕ × Options
settsize o = (0, record o { tsize = not o.tsize })

unfoldable pub setoptions : Options → ℕ × Options
setoptions o = (0, record o { no_options = not o.no_options })

unfoldable pub settrace : Options → ℕ × Options
settrace o = (0, record o { trace = not o.trace })

-- argv, or that of the line which getmoreargs() reads behind `partial`; none with --command.
abbrev pub more_args :
    (partial : List ℕ) → (line : Option (List ℕ)) → (argv : List (List ℕ)) → Option (List (List ℕ))
more_args partial line [] = elim line [ none ↦ none | some l ↦ some (makeargv (partial ++ l)) ]
more_args partial line (cmd ∷ []) = elim line [
  | none ↦ none
  | some l ↦ some (makeargv (partial ++ l))
]
more_args partial line (cmd ∷ arg ∷ rest) = some (cmd ∷ arg ∷ rest)

abbrev pub one_arg : Option (List (List ℕ)) → Option (List ℕ)
one_arg (some (cmd ∷ arg ∷ [])) = some arg
one_arg _ = none

unfoldable pub setwindowsize :
    (line : Option (List ℕ)) → (argv : List (List ℕ)) → Options → ℕ × Options
unfolding parse_uint makeargv
setwindowsize line argv o = elim (one_arg (more_args (codes "windowsize ") line argv)) [
  | none ↦ (ex_usage, o)
  | some arg ↦
      let v = parse_uint (some arg) 1 32768 in
      if v == bad_num then (ex_usage, o) else (0, record o { max_windowsize = v })
]

unfoldable pub setblocksize :
    (line : Option (List ℕ)) → (argv : List (List ℕ)) → Options → ℕ × Options
unfolding parse_blocksize_arg makeargv
setblocksize line argv o = elim (one_arg (more_args (codes "blocksize ") line argv)) [
  | none ↦ (ex_usage, o)
  | some arg ↦ elim (parse_blocksize_arg arg min_segsize) [
    | none ↦ (ex_usage, o)
    | some b ↦ (0, record o { blksize = b })
  ]
]

other_name :
    (arg : List ℕ) (n : Option (List ℕ))
    → n ≢ some arg
    → elim n [ none ↦ false | some name ↦ str_eq arg name ] ≡ false
other_name arg none h = refl
other_name arg (some name) h = elim (Bool-cases (str_eq arg name)) [
  | inl same ↦ absurd (h (ap some (sym (str_eq_sound arg name same))))
  | inr other ↦ other
]

find_mode_entry-unknown :
    (arg : List ℕ) (ps : List ModeEntry)
    → All (λ p. p.m_name ≢ some arg) ps
    → find_mode_entry arg ps ≡ no_mode
unfolding find_mode_entry
find_mode_entry-unknown arg [] h = refl
find_mode_entry-unknown arg (p ∷ ps) h =
    let other = other_name arg p.m_name h.0 in rw other (find_mode_entry-unknown arg ps h.1)

-- A mode that is in no entry of the table: modecmd reports success all the same, and leaves the
-- client with the entry at the end of the table, whose mode is a null pointer.
pub modecmd_unknown :
    (cmd arg : List ℕ) (o : Options)
    → All (λ p. p.m_name ≢ some arg) modes
    → ((modecmd (cmd ∷ arg ∷ []) o).0 ≡ 0)
      × ((modecmd (cmd ∷ arg ∷ []) o).1 ≡ record o { mode = no_mode })
unfolding modecmd
modecmd_unknown cmd arg o h =
    let e = find_mode_entry-unknown arg modes h in (refl, ground (arith, e))
