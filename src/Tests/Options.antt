-- ===== src/Tests/Options.antt =====
-- Option negotiation at concrete requests.
use network_tftp_tftp_hpa.Prelude.{ℕ, ◌≡◌, refl, false, true, inl, inr, List, [], ◌∷◌, arith}
use network_tftp_tftp_hpa.Daemon.{
  pot_uint, pot_str, ProtocolOption, Daemon, Limits, TsizeMode, option_named,
}
use network_tftp_tftp_hpa.Daemon.Negotiate.{
  negotiate_blksize, negotiate_windowsize, negotiate_timeout,
}
use network_tftp_tftp_hpa.Daemon.Negotiate.Block.{BlksizeChosen, negotiate_blksize-bounds}
use network_tftp_tftp_hpa.Daemon.Negotiate.Window.{WindowChosen, negotiate_windowsize-bounds}
use network_tftp_tftp_hpa.Daemon.Negotiate.Timeout.{TimeoutChosen, negotiate_timeout-consistent}
use network_tftp_tftp_hpa.Daemon.Request.{
  build_oack, options_of, negotiate_options, parse_request, unterminated,
}
use network_tftp_tftp_hpa.Daemon.Request.Oack.{Announces, build_oack-strings}

-- "a"
abbrev short_name : List ℕ
short_name = b'a' ∷ []

-- An option named "a", asked for as "A" with this value.
abbrev asked : ℕ → ProtocolOption
asked n = record (option_named short_name pot_uint) {
  requested = true;
  uint = n;
  client_name = b'A' ∷ [];
}

abbrev not_asked : ProtocolOption
not_asked = option_named short_name pot_uint

-- blksize=1468, blksize2=1024, timeout=2, utimeout=2000000, windowsize=64
abbrev sample : Daemon
sample = record {
  blksize = asked 1468;
  blksize2 = asked 1024;
  cookie = option_named short_name pot_str;
  rollover = not_asked;
  timeout = asked 2;
  tsize = not_asked;
  utimeout = asked 2000000;
  windowsize = asked 64;
  segsize = 512;
  window = 1;
  rexmtval = 1000000;
  timeout_now = 1000000;
  maxtimeout = 63000000;
  rollover_val = 0;
  tsize_mode = TsizeMode.tsize_nak;
  tsize_size = 0;
}

abbrev limits : Limits
limits = record { max_windowsize = 256; max_windowbytes = 16384; reject_all_options = false }

abbrev no_bytes : Limits
no_bytes = record { max_windowsize = 256; max_windowbytes = 0; reject_all_options = false }

negotiate_blksize-bounds_example : BlksizeChosen 65464 sample (negotiate_blksize 65464 sample)
negotiate_blksize-bounds_example =
    negotiate_blksize-bounds 65464 sample (omega arith) (omega arith) refl refl

-- Both are acknowledged with a value, and that of blksize2 may exceed what was asked for.
abbrev both : Daemon
both = record sample { blksize = asked 2048 }

blksize2_exceeded : (negotiate_blksize 65464 both).blksize2.uint ≡ 2048
unfolding negotiate_options
blksize2_exceeded = refl

negotiate_windowsize-bounds_example :
    WindowChosen limits sample (negotiate_windowsize limits sample)
negotiate_windowsize-bounds_example = negotiate_windowsize-bounds limits sample (omega arith) refl

window_of_32 : (negotiate_windowsize limits sample).window ≡ 32
unfolding negotiate_options
window_of_32 = refl

negotiate_timeout-consistent_example : TimeoutChosen sample (negotiate_timeout sample)
negotiate_timeout-consistent_example = negotiate_timeout-consistent sample refl refl

-- The option "A" granted with the value 512.
abbrev granted : Daemon
granted = record sample { blksize = record (asked 512) { acked = true } }

build_oack-strings_example : Announces (build_oack granted) (options_of granted)
unfolding negotiate_options
build_oack-strings_example = build_oack-strings granted (
  inr (
    refl,
    ((λ e. cc), ((λ e. cc), tt)),
    ((λ e. cc), ((λ e. cc), ((λ e. cc), ((λ e. cc), tt)))),
    refl,
  ),
  (inl refl, (inl refl, (inl refl, (inl refl, (inl refl, (inl refl, (inl refl, tt))))))),
)

-- "ab" without its NUL
unterminated_request : parse_request (b'a' ∷ b'b' ∷ []) sample ≡ unterminated
unfolding parse_request
unterminated_request = refl
