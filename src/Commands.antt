-- ===== src/Commands.antt =====
-- tftp/main.c: the interactive commands of the client.
pub mod Names
pub mod Found
pub mod Words
pub mod Modes
pub mod Files
use network_tftp_tftp_hpa.Prelude.{
  ℕ, zero, suc, ◌+◌, Bool, true, false, ◌&&◌, ◌||◌, not, Option, none, some, List, [], ◌∷◌, ◌++◌,
  ltb, leb, ◌==◌, if◌then◌else◌,
}
use network_tftp_tftp_hpa.Text.{ascii_tolower}
use network_tftp_tftp_hpa.Text.Codes.{codes}
use network_tftp_tftp_hpa.Arguments.{is_space}

abbrev pub no_bytes : List ℕ → Bool
no_bytes [] = true
no_bytes (c ∷ cs) = false

-- The loop of makeargv: `left` is the room in argp, and `word` the word that cp stands in.
unfoldable pub words_from : (left : ℕ) → (word : Option (List ℕ)) → List ℕ → List (List ℕ)
words_from left none [] = []
words_from left (some w) [] = w ∷ []
words_from zero none (c ∷ cs) =
    let later = words_from zero none cs in if is_space c then later else []
words_from (suc left) none (c ∷ cs) =
    let later = words_from (suc left) none cs in
    let word = words_from left (some (c ∷ [])) cs in if is_space c then later else word
words_from left (some w) (c ∷ cs) =
    let later = w ∷ words_from left none cs in
    let longer = words_from left (some (w ++ c ∷ [])) cs in if is_space c then later else longer

-- makeargv; MARGVSIZE is 20.
unfoldable pub makeargv : List ℕ → List (List ℕ)
unfolding words_from
makeargv str = words_from 19 none str

-- The handlers of cmdtab.
pub data Handler : Type 0 where
  setpeer modecmd put mput get mget quit setverbose settrace setliteral status setbinary setascii
        setblocksize setrexmt settimeout settsize setwindowsize setoptions help :
      Handler

pub record Cmd : Type 0 where
  pub name : List ℕ
  pub handler : Handler

abbrev pub cmd_of : List ℕ → Handler → Cmd
cmd_of name handler = record { name = name; handler = handler }

abbrev pub first_cmd : Cmd
first_cmd = cmd_of (codes "c[onnect]") setpeer

abbrev pub cmdtab : List Cmd
cmdtab =
    first_cmd
    ∷ cmd_of (codes "m[ode]") modecmd
    ∷ cmd_of (codes "p[ut]") put
    ∷ cmd_of (codes "mp[ut]") mput
    ∷ cmd_of (codes "g[et]") get
    ∷ cmd_of (codes "mg[et]") mget
    ∷ cmd_of (codes "q[uit]") quit
    ∷ cmd_of (codes "v[erbose]") setverbose
    ∷ cmd_of (codes "tr[ace]") settrace
    ∷ cmd_of (codes "l[iteral]") setliteral
    ∷ cmd_of (codes "st[atus]") status
    ∷ cmd_of (codes "b[inary]") setbinary
    ∷ cmd_of (codes "a[scii]") setascii
    ∷ cmd_of (codes "bl[ocksize]") setblocksize
    ∷ cmd_of (codes "r[exmt]") setrexmt
    ∷ cmd_of (codes "ti[meout]") settimeout
    ∷ cmd_of (codes "tsi[ze]") settsize
    ∷ cmd_of (codes "win[dowsize]") setwindowsize
    ∷ cmd_of (codes "opt[ions]") setoptions
    ∷ cmd_of (codes "?") help
    ∷ cmd_of (codes "h[elp]") help
    ∷ []

-- The inner loop of getcmd: ok and metric, over p and q.
unfoldable pub match_name : (ok : Bool) → (metric : ℕ) → (p q : List ℕ) → Bool × ℕ
unfolding ascii_tolower
match_name ok metric p [] = (no_bytes p, metric)
match_name ok metric [] (q ∷ qs) =
    let opened = match_name true metric [] qs in
    if q == b']' then (true, metric) else if q == b'[' then opened else (ok, metric)
match_name ok metric (p ∷ ps) (q ∷ qs) =
    let opened = match_name true metric (p ∷ ps) qs in
    let next = match_name ok (metric + 1) ps qs in
    if q == b']'
    then (false, metric)
    else if q == b'['
    then opened
    else if ascii_tolower p == q
    then next
    else (false, metric)

-- What getcmd finds: the command, or the one that it suggests.
pub data Lookup : Type 0 where
  known unknown : Cmd → Lookup

-- The outer loop; best_metric is one less than `best_metric` here.
unfoldable pub getcmd_from : List ℕ → List Cmd → (best : Cmd) → (best_metric : ℕ) → Lookup
unfolding match_name
getcmd_from name [] best best_metric = unknown best
getcmd_from name (c ∷ cs) best best_metric =
    let (ok, metric) = match_name false 0 name c.name in
    let better = ltb best_metric (metric + 1) in
    let later =
      getcmd_from name cs (if better then c else best)
        (if better then metric + 1 else best_metric) in
    if ok then known c else later

unfoldable pub getcmd : List ℕ → Lookup
unfolding getcmd_from
getcmd name = getcmd_from name cmdtab first_cmd 0
