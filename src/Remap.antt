-- ===== src/Remap.antt =====
-- tftpd/remap.c: the rules of file name mapping, and what they use of the C library.
pub mod Expand
pub mod Parse
pub mod Rewrite
use network_tftp_tftp_hpa.Prelude.{ℕ, Bool, Option, List}

-- The conversion functions of the locale: mbrtowc(), wcrtomb(), towupper() and towlower(), and the
-- test isspace(). A conversion state is a mbstate_t, and a wide character a number.
pub record Locale : Type 1 where
  pub MbState : Type 0
  pub initial : MbState
  -- The wide character, and how many bytes it takes; none for a result that is not positive.
  pub mbrtowc : List ℕ → MbState → Option (ℕ × ℕ × MbState)
  -- The bytes; none of them for a result that is not positive.
  pub wcrtomb : ℕ → MbState → List ℕ × MbState
  pub towupper : ℕ → ℕ
  pub towlower : ℕ → ℕ
  pub isspace : ℕ → Bool

-- regmatch_t: rm_so and rm_eo, or none if rm_so is -1.
abbrev pub RegMatch : Type 0
RegMatch = Option (ℕ × ℕ)

-- What regexec() returns: 0 and pmatch[], REG_NOMATCH, or an error.
pub data Exec : Type 0 where
  matched : List RegMatch → Exec
  no_match exec_error : Exec

-- regcomp() with REG_EXTENDED, and regexec(); `nmatch` is the number of elements of pmatch[].
pub record Regex : Type 1 where
  pub Rx : Type 0
  pub regcomp : List ℕ → (icase nosub : Bool) → Option Rx
  pub regexec : Rx → List ℕ → (nmatch : ℕ) → (notbol : Bool) → Exec

-- rule_flags, a field for each bit
pub record Flags : Type 0 where
  pub rewrite : Bool
  pub global : Bool
  pub exit : Bool
  pub restart : Bool
  pub abort : Bool
  pub inverse : Bool
  pub ipv4 : Bool
  pub ipv6 : Bool
  pub hasfile : Bool
  pub rrq : Bool
  pub wrq : Bool
  pub sedg : Bool
  pub jump : Bool
  pub label : Bool
  pub noregex : Bool

-- struct rule without the link to the next one. `rx` is none where no expression is compiled.
pub record Rule (Rx : Type 0) : Type 0 where
  pub line : ℕ
  pub flags : Flags
  pub rx : Option Rx
  pub pattern : List ℕ
