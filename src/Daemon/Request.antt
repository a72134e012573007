-- ===== src/Daemon/Request.antt =====
-- tftpd/tftpd.c: the strings of a request in tftp(), parse_option(), and the OACK of build_oack().
-- A request is its bytes from th_stuff to the end of the datagram.
pub mod Split
pub mod Oack
use network_tftp_tftp_hpa.Prelude.{
  ℕ, ◌+◌, ◌-◌, ◌*◌, ◌%◌, ◌^◌, Bool, true, false, not, ◌&&◌, ◌||◌, Option, none, some, List, [], ◌∷◌,
  ◌++◌, length, take, leb, ltb, ◌==◌, if◌then◌else◌,
}
use network_tftp_tftp_hpa.Text.{first_byte, ascii_isdigit, ascii_strcaseeq}
use network_tftp_tftp_hpa.Text.Decimal.{decimal_on, decimal, scan_digits}
use network_tftp_tftp_hpa.Daemon.{
  Otype, ProtocolOption, Daemon, Limits, opt_granted, opt_requested, option_named,
}
use network_tftp_tftp_hpa.Daemon.Negotiate.{negotiate_all}

abbrev pub is_empty : List ℕ → Bool
is_empty [] = true
is_empty (c ∷ cs) = false

-- The strings that the loop of tftp() steps over, and whether the last byte it looks at is a NUL
-- or there is none to look at.
pub record Strings : Type 0 where
  pub complete : List (List ℕ)
  pub terminated : Bool

-- The loop ends at an empty string or at the end of the datagram. `current` is the string from its
-- start up to cp.
unfoldable pub strings_from : (current : List ℕ) → List ℕ → Strings
strings_from current [] = record { complete = []; terminated = is_empty current }
strings_from current (c ∷ cs) =
    let longer = strings_from (current ++ c ∷ []) cs in
    let later = strings_from [] cs in
    if c == 0
    then (if is_empty current
        then record { complete = []; terminated = true }
        else record later { complete = current ∷ later.complete })
    else longer

-- The switch of parse_option on a number: none where it returns early.
unfoldable pub option_number : List ℕ → Option ℕ
unfolding ascii_isdigit scan_digits
option_number val =
    let (v, rest) = scan_digits 0 val in
    if ascii_isdigit (first_byte val) && (is_empty rest && ltb v (2 ^ 64)) then some v else none

-- The new data of the option that is named; `vlen` is the length of `val`.
unfoldable pub take_option : (opt val : List ℕ) → ProtocolOption → ProtocolOption
unfolding option_number
take_option opt val po =
    let taken : ProtocolOption = record po {
      client_name = opt;
      str = val;
      dsize = (length val + 1) % 2 ^ 16;
      requested = true;
    } in
    elim po.otype [
      | Otype.pot_str ↦ taken
      | Otype.pot_uint ↦ elim (option_number val) [
        | none ↦ record po { client_name = opt }
        | some v ↦ record taken { uint = v }
      ]
    ]

-- parse_option: the first option of the table with this name.
unfoldable pub parse_option : (opt val : List ℕ) → Daemon → Daemon
unfolding take_option ascii_strcaseeq
parse_option opt val d =
    let named : ProtocolOption → Bool = λ po. ascii_strcaseeq po.name opt in
    if is_empty opt || is_empty val
    then d
    else if named d.blksize
    then record d { blksize = take_option opt val d.blksize }
    else if named d.blksize2
    then record d { blksize2 = take_option opt val d.blksize2 }
    else if named d.cookie
    then record d { cookie = take_option opt val d.cookie }
    else if named d.rollover
    then record d { rollover = take_option opt val d.rollover }
    else if named d.timeout
    then record d { timeout = take_option opt val d.timeout }
    else if named d.tsize
    then record d { tsize = take_option opt val d.tsize }
    else if named d.utimeout
    then record d { utimeout = take_option opt val d.utimeout }
    else if named d.windowsize
    then record d { windowsize = take_option opt val d.windowsize }
    else d

-- The calls of parse_option; a name with no value is left.
unfoldable pub parse_options : List (List ℕ) → Daemon → Daemon
unfolding parse_option
parse_options [] d = d
parse_options (opt ∷ []) d = d
parse_options (opt ∷ val ∷ more) d = parse_options more (parse_option opt val d)

-- The transfer modes of `formats`.
pub data Mode : Type 0 where
  netascii octet : Mode

-- What tftp() has when its loop is over, or the message of the nak().
pub data Parsed : Type 0 where
  unterminated unknown_mode missing_mode : Parsed
  request : (filename : List ℕ) → Mode → Daemon → Parsed

-- The table of modes.
unfoldable pub find_mode : List ℕ → Option Mode
unfolding ascii_strcaseeq
find_mode mode =
    if ascii_strcaseeq (b'n' ∷ b'e' ∷ b't' ∷ b'a' ∷ b's' ∷ b'c' ∷ b'i' ∷ b'i' ∷ []) mode
    then some Mode.netascii
    else if ascii_strcaseeq (b'o' ∷ b'c' ∷ b't' ∷ b'e' ∷ b't' ∷ []) mode
    then some Mode.octet
    else none

unfoldable pub parse_strings : Strings → Daemon → Parsed
unfolding find_mode parse_options
parse_strings strings d =
    let short : Parsed = if strings.terminated then missing_mode else unterminated in
    elim strings.complete [
      | [] ↦ short
      | filename ∷ [] ↦ short
      | filename ∷ mode ∷ options ↦ elim (find_mode mode) [
        | none ↦ unknown_mode
        | some m ↦
            if strings.terminated
            then request filename m (parse_options options d)
            else unterminated
      ]
    ]

-- The loop of tftp() and the test after it.
unfoldable pub parse_request : List ℕ → Daemon → Parsed
unfolding strings_from parse_strings
parse_request stuff d = parse_strings (strings_from [] stuff) d

-- The limit of an upload: none if tsize exceeds it, and tsize if that is requested.
unfoldable pub upload_limit : (max_upload : ℕ) → Daemon → Option ℕ
upload_limit max_upload d =
    if opt_requested d.tsize
    then (if ltb max_upload d.tsize.uint then none else some d.tsize.uint)
    else some max_upload

-- The array of options.
abbrev pub options_of : Daemon → List ProtocolOption
options_of d =
    d.blksize ∷ d.blksize2 ∷ d.cookie ∷ d.rollover ∷ d.timeout ∷ d.tsize ∷ d.utimeout ∷ d.windowsize
    ∷ []

-- The first loop of build_oack on a granted option: the data that is sent.
unfoldable pub refreshed : ProtocolOption → ProtocolOption
unfolding decimal
refreshed po = elim po.otype [
  | Otype.pot_uint ↦ record po {
    str = decimal po.uint;
    dsize = (length (decimal po.uint) + 1) % 2 ^ 16;
  }
  | Otype.pot_str ↦ po
]

-- The second loop of build_oack: nsize bytes of the name and dsize bytes of the data.
unfoldable pub oack_stuff : List ProtocolOption → List ℕ
unfolding refreshed
oack_stuff [] = []
oack_stuff (po ∷ more) =
    let po' = refreshed po in
    let entry =
      take (length po.name + 1) (po.client_name ++ 0 ∷ []) ++ take po'.dsize (po'.str ++ 0 ∷ []) in
    if opt_granted po then entry ++ oack_stuff more else oack_stuff more

-- No packet is built without a byte for it.
abbrev pub unless_empty : List ℕ → Option (List ℕ)
unless_empty [] = none
unless_empty (c ∷ cs) = some (c ∷ cs)

-- build_oack: the bytes after the opcode, or none.
unfoldable pub build_oack : Daemon → Option (List ℕ)
build_oack d = unless_empty (oack_stuff (options_of d))

-- negotiate_options
unfoldable pub negotiate_options : (max_blksize : ℕ) → Limits → Daemon → Daemon × Option (List ℕ)
unfolding negotiate_all build_oack oack_stuff
negotiate_options max_blksize limits d =
    let negotiated = negotiate_all max_blksize limits d in
    if limits.reject_all_options then (d, none) else (negotiated, build_oack negotiated)
