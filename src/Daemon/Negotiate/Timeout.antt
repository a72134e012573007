-- ===== src/Daemon/Negotiate/Timeout.antt =====
-- The retransmission timeout that negotiate_timeout() settles on.
use network_tftp_tftp_hpa.Prelude.{◌*◌, ◌≤◌, ◌≡◌, true, false, ◌⊎◌, arith}
use network_tftp_tftp_hpa.Packet.{usec_per_sec, min_timeout, max_timeout, timeout_limit}
use network_tftp_tftp_hpa.Daemon.{Daemon, opt_granted}
use network_tftp_tftp_hpa.Daemon.Negotiate.{negotiate_timeout}

-- What may become of the two options and the timeouts: either all stay as they were, or the
-- timeout is at least 10 milliseconds and at most 255 seconds, the limit is 63 times as long, at
-- least one of the two options is granted, and each one that is acknowledged has just this timeout
-- as its value: timeout in seconds, utimeout in microseconds.
abbrev pub TimeoutChosen : (d d' : Daemon) → Type 0
TimeoutChosen d d' =
    (d' ≡ d)
    ⊎ ((min_timeout ≤ d'.rexmtval)
        × (d'.rexmtval ≤ max_timeout)
        × (d'.timeout_now ≡ d'.rexmtval)
        × (d'.maxtimeout ≡ d'.rexmtval * timeout_limit)
        × ((opt_granted d'.timeout ≡ true) ⊎ (opt_granted d'.utimeout ≡ true))
        × ((d'.timeout.acked ≡ false) ⊎ (d'.timeout.uint * usec_per_sec ≡ d'.rexmtval))
        × ((d'.utimeout.acked ≡ false) ⊎ (d'.utimeout.uint ≡ d'.rexmtval)))

-- If neither timeout option was acknowledged before, then negotiate_timeout chooses as
-- TimeoutChosen says: a timeout in range that each acknowledged option names, or no change.
pub negotiate_timeout-consistent :
    (d : Daemon)
    → d.timeout.acked ≡ false
    → d.utimeout.acked ≡ false
    → TimeoutChosen d (negotiate_timeout d)
unfolding negotiate_timeout
negotiate_timeout-consistent d a u = ground arith
