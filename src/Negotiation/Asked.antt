-- ===== src/Negotiation/Asked.antt =====
-- What the daemon reads in a request of the client.
use network_tftp_tftp_hpa.Prelude.{
  ℕ, ◌+◌, ◌^◌, ◌%◌, ◌<◌, ◌≡◌, ◌≢◌, refl, sym, ap, ◌∙◌, subst, Bool, true, false, some, List, [],
  ◌∷◌, length, All, arith, ltb, if◌then◌else◌,
}
use network_tftp_tftp_hpa.Text.{ascii_isdigit, first_byte, ascii_strcaseeq}
use network_tftp_tftp_hpa.Text.Decimal.{decimal, scan_digits-decimal}
use network_tftp_tftp_hpa.Text.Digits.{decimal-IsDigits, isdigit-ne_zero, IsDigits-ne_zero}
use network_tftp_tftp_hpa.Daemon.{Daemon, ProtocolOption, pot_uint, option_named}
use network_tftp_tftp_hpa.Daemon.Table.{startup, blksize_name, tsize_name, windowsize_name}
use network_tftp_tftp_hpa.Daemon.Request.{
  strings_from, option_number, take_option, parse_option, parse_options, is_empty, Mode, netascii,
  octet, find_mode, parse_strings, parse_request, request,
}
use network_tftp_tftp_hpa.Daemon.Request.Split.{IsPlain, packed, strings_from-packed}
use network_tftp_tftp_hpa.Client.{Optreq}
use network_tftp_tftp_hpa.Client.Request.{entry, size_or_zero, optionbuf, makerequest}

pub decimal-IsPlain : (n : ℕ) → IsPlain (decimal n)
decimal-IsPlain n =
    let (c, cs, e, d, ds) = decimal-IsDigits n in
    (
      λ q. absurd (cons_nil c cs (sym e ∙ q)),
      subst (All (λ x. x ≢ 0)) (sym e) (isdigit-ne_zero c d, IsDigits-ne_zero cs ds),
    )
  where
    cons_nil : (c : ℕ) (cs : List ℕ) → c ∷ cs ≡ [] → ⊥
    cons_nil c cs q = cc

-- A printed number is a value for parse_option.
option_number-decimal : (n : ℕ) → n < 2 ^ 64 → option_number (decimal n) ≡ some n
unfolding option_number
option_number-decimal n lt =
    let (c, cs, e, d, ds) = decimal-IsDigits n in
    let first : ascii_isdigit (first_byte (decimal n)) ≡ true =
      ap (λ s. ascii_isdigit (first_byte s)) e ∙ d in
    let small : ltb n (2 ^ 64) ≡ true = ground arith in
    rw (scan_digits-decimal n lt, first, small) refl

-- The option after it is read with the number `n`.
abbrev pub taken : (name : List ℕ) → (n : ℕ) → ProtocolOption
taken name n = record (option_named name pot_uint) {
  client_name = name;
  str = decimal n;
  dsize = (length (decimal n) + 1) % 2 ^ 16;
  requested = true;
  uint = n;
}

take_option-decimal :
    (name : List ℕ) (n : ℕ)
    → n < 2 ^ 64
    → take_option name (decimal n) (option_named name pot_uint) ≡ taken name n
unfolding take_option
take_option-decimal name n lt = let read = option_number-decimal n lt in ground (arith, read)

-- The strings of optionbuf.
abbrev pub string_entry : Bool → (name : List ℕ) → (n : ℕ) → List (List ℕ) → List (List ℕ)
string_entry there name n rest = if there then name ∷ decimal n ∷ rest else rest

abbrev pub option_strings : Optreq → List (List ℕ)
option_strings req = string_entry req.has_blksize blksize_name req.blksize (
    string_entry req.has_window windowsize_name req.window
      (string_entry req.has_tsize tsize_name (size_or_zero req.tsize) []))

entry-packed :
    (there : Bool) (name : List ℕ) (n : ℕ) (rest : List (List ℕ))
    → entry there name n (packed rest) ≡ packed (string_entry there name n rest)
entry-packed true name n rest = refl
entry-packed false name n rest = refl

optionbuf-packed : (req : Optreq) → optionbuf req ≡ packed (option_strings req)
unfolding optionbuf
optionbuf-packed req =
    let last = entry-packed req.has_tsize tsize_name (size_or_zero req.tsize) [] in
    let middle =
      ap (entry req.has_window windowsize_name req.window) last
      ∙ entry-packed req.has_window windowsize_name req.window
          (string_entry req.has_tsize tsize_name (size_or_zero req.tsize) []) in
    ap (entry req.has_blksize blksize_name req.blksize) middle
    ∙ entry-packed req.has_blksize blksize_name req.blksize _

-- The daemon with these three options, and all else as at its start.
abbrev pub reading : (blksize tsize windowsize : ProtocolOption) → Daemon
reading b t w = record startup { blksize = b; tsize = t; windowsize = w }

decimal-not_empty : (n : ℕ) → is_empty (decimal n) ≡ false
decimal-not_empty n = let (c, cs, e, d, ds) = decimal-IsDigits n in ap is_empty e

parse_blksize :
    (n : ℕ) (t w : ProtocolOption)
    → n < 2 ^ 64
    → parse_option blksize_name (decimal n) (reading (option_named blksize_name pot_uint) t w)
      ≡ reading (taken blksize_name n) t w
unfolding parse_option ascii_strcaseeq
parse_blksize n t w lt =
    let there = decimal-not_empty n in
    let read = take_option-decimal blksize_name n lt in rw (there, read) refl

parse_windowsize :
    (n : ℕ) (b t : ProtocolOption)
    → b.name ≡ blksize_name
    → t.name ≡ tsize_name
    → n < 2 ^ 64
    → parse_option windowsize_name (decimal n) (reading b t (option_named windowsize_name pot_uint))
      ≡ reading b t (taken windowsize_name n)
unfolding parse_option ascii_strcaseeq
parse_windowsize n b t eb et lt =
    let there = decimal-not_empty n in
    let read = take_option-decimal windowsize_name n lt in rw (there, read, eb, et) refl

parse_tsize :
    (n : ℕ) (b w : ProtocolOption)
    → b.name ≡ blksize_name
    → n < 2 ^ 64
    → parse_option tsize_name (decimal n) (reading b (option_named tsize_name pot_uint) w)
      ≡ reading b (taken tsize_name n) w
unfolding parse_option ascii_strcaseeq
parse_tsize n b w eb lt =
    let there = decimal-not_empty n in
    let read = take_option-decimal tsize_name n lt in rw (there, read, eb) refl

-- An option of the table, asked for with a number or not.
abbrev pub option_asked : Bool → (name : List ℕ) → (n : ℕ) → ProtocolOption
option_asked there name n = if there then taken name n else option_named name pot_uint

option_asked-name : (there : Bool) (name : List ℕ) (n : ℕ) → (option_asked there name n).name ≡ name
option_asked-name true name n = refl
option_asked-name false name n = refl

parse_options-entry :
    (there : Bool) (name : List ℕ) (n : ℕ) (rest : List (List ℕ)) (d : Daemon)
    → parse_options (string_entry there name n rest) d
      ≡ parse_options rest (if there then parse_option name (decimal n) d else d)
unfolding parse_options
parse_options-entry true name n rest d = refl
parse_options-entry false name n rest d = refl

read_blksize :
    (there : Bool) (n : ℕ) (t w : ProtocolOption)
    → n < 2 ^ 64
    → (if there
        then parse_option blksize_name
            (decimal n)
            (reading (option_named blksize_name pot_uint) t w)
        else reading (option_named blksize_name pot_uint) t w)
      ≡ reading (option_asked there blksize_name n) t w
read_blksize true n t w lt = parse_blksize n t w lt
read_blksize false n t w lt = refl

read_windowsize :
    (there : Bool) (n : ℕ) (b t : ProtocolOption)
    → b.name ≡ blksize_name
    → t.name ≡ tsize_name
    → n < 2 ^ 64
    → (if there
        then parse_option windowsize_name
            (decimal n)
            (reading b t (option_named windowsize_name pot_uint))
        else reading b t (option_named windowsize_name pot_uint))
      ≡ reading b t (option_asked there windowsize_name n)
read_windowsize true n b t eb et lt = parse_windowsize n b t eb et lt
read_windowsize false n b t eb et lt = refl

read_tsize :
    (there : Bool) (n : ℕ) (b w : ProtocolOption)
    → b.name ≡ blksize_name
    → n < 2 ^ 64
    → (if there
        then parse_option tsize_name (decimal n) (reading b (option_named tsize_name pot_uint) w)
        else reading b (option_named tsize_name pot_uint) w)
      ≡ reading b (option_asked there tsize_name n) w
read_tsize true n b w eb lt = parse_tsize n b w eb lt
read_tsize false n b w eb lt = refl

-- The options of the daemon when it has read a request.
abbrev pub asked : Optreq → Daemon
asked req =
    reading (option_asked req.has_blksize blksize_name req.blksize)
      (option_asked req.has_tsize tsize_name (size_or_zero req.tsize))
      (option_asked req.has_window windowsize_name req.window)

-- The numbers of a request fit into 64 bits.
abbrev pub Fits : Optreq → Type 0
Fits req = (req.blksize < 2 ^ 64) × (req.window < 2 ^ 64) × (size_or_zero req.tsize < 2 ^ 64)

parse_options-asked :
    (req : Optreq) → Fits req → parse_options (option_strings req) startup ≡ asked req
unfolding parse_options
parse_options-asked req (fb, fw, ft) =
    let fresh_t = option_named tsize_name pot_uint in
    let fresh_w = option_named windowsize_name pot_uint in
    let b = option_asked req.has_blksize blksize_name req.blksize in
    let w = option_asked req.has_window windowsize_name req.window in
    let named = option_asked-name req.has_blksize blksize_name req.blksize in
    let tsizes = string_entry req.has_tsize tsize_name (size_or_zero req.tsize) [] in
    let windows = string_entry req.has_window windowsize_name req.window tsizes in
    parse_options-entry req.has_blksize blksize_name req.blksize windows startup
    ∙ ap (parse_options windows) (read_blksize req.has_blksize req.blksize fresh_t fresh_w fb)
    ∙ parse_options-entry req.has_window windowsize_name req.window tsizes
        (reading b fresh_t fresh_w)
    ∙ ap (parse_options tsizes) (read_windowsize req.has_window req.window b fresh_t named refl fw)
    ∙ parse_options-entry req.has_tsize tsize_name (size_or_zero req.tsize) [] (reading b fresh_t w)
    ∙ read_tsize req.has_tsize (size_or_zero req.tsize) b w named ft

string_entry-IsPlain :
    (there : Bool) (name : List ℕ) (n : ℕ) (rest : List (List ℕ))
    → IsPlain name
    → All IsPlain rest
    → All IsPlain (string_entry there name n rest)
string_entry-IsPlain true name n rest h k = (h, (decimal-IsPlain n, k))
string_entry-IsPlain false name n rest h k = k

-- The modes that the client asks for.
abbrev pub mode_name : Mode → List ℕ
mode_name netascii = b'n' ∷ b'e' ∷ b't' ∷ b'a' ∷ b's' ∷ b'c' ∷ b'i' ∷ b'i' ∷ []
mode_name octet = b'o' ∷ b'c' ∷ b't' ∷ b'e' ∷ b't' ∷ []

option_strings-IsPlain : (req : Optreq) → All IsPlain (option_strings req)
option_strings-IsPlain req =
    string_entry-IsPlain req.has_blksize blksize_name req.blksize _ (ground arith) (
      string_entry-IsPlain req.has_window windowsize_name req.window _ (ground arith) (
        string_entry-IsPlain req.has_tsize tsize_name (size_or_zero req.tsize) [] (ground arith)
          tt))

mode_name-IsPlain : (m : Mode) → IsPlain (mode_name m)
mode_name-IsPlain netascii = ground arith
mode_name-IsPlain octet = ground arith

find_mode-name : (m : Mode) → find_mode (mode_name m) ≡ some m
unfolding find_mode ascii_strcaseeq
find_mode-name netascii = refl
find_mode-name octet = refl

makerequest-packed :
    (req : Optreq) (name mode : List ℕ) {stuff : List ℕ}
    → makerequest req name mode ≡ some stuff
    → stuff ≡ packed (name ∷ mode ∷ option_strings req)
unfolding makerequest
makerequest-packed req name mode e = ground (arith, optionbuf-packed req)

parse_strings-request :
    (req : Optreq) (name : List ℕ) (m : Mode)
    → Fits req
    → parse_strings
        (record { complete = name ∷ mode_name m ∷ option_strings req; terminated = true })
        startup
      ≡ request name m (asked req)
unfolding parse_strings
parse_strings-request req name m fits =
    let mode = find_mode-name m in
    let options = parse_options-asked req fits in ground (arith, mode, options)

-- The options of a request as the daemon finds them: all that makerequest writes is read back.
pub makerequest-parse_request :
    (req : Optreq) (name : List ℕ) (m : Mode) {stuff : List ℕ}
    → IsPlain name
    → Fits req
    → makerequest req name (mode_name m) ≡ some stuff
    → parse_request stuff startup ≡ request name m (asked req)
unfolding parse_request
makerequest-parse_request req name m {stuff} plain fits e =
    let strings = name ∷ mode_name m ∷ option_strings req in
    let split =
      strings_from-packed strings (plain, (mode_name-IsPlain m, option_strings-IsPlain req)) in
    subst (λ s. parse_strings (strings_from [] s) startup ≡ request name m (asked req))
      (sym (makerequest-packed req name (mode_name m) e))
      (rw split (parse_strings-request req name m fits))
