-- ===== src/Daemon/Blksize.antt =====
-- common/tftpsubs.c, tftp_max_blksize(): the largest block that the option -B and the MTU allow.
use network_tftp_tftp_hpa.Prelude.{
  ℕ, ◌+◌, ◌-◌, ◌≤◌, ◌≡◌, Option, none, some, arith, ltb, if◌then◌else◌,
}
use network_tftp_tftp_hpa.Packet.{min_segsize, segsize, max_segsize}

-- xopt.blksize: relative to the MTU if it is not positive, by the number of bytes it is below 0.
pub data BlksizeArg : Type 0 where
  below_mtu : ℕ → BlksizeArg
  absolute : ℕ → BlksizeArg

-- sa->sa.sa_family
pub data Family : Type 0 where
  af_inet af_inet6 af_other : Family

-- What is subtracted for the headers.
abbrev pub overhead : Family → ℕ
overhead Family.af_inet = 20 + 8 + 4
overhead Family.af_inet6 = 40 + 8 + 4
overhead Family.af_other = 0

-- What getsockint() brings: none if errno is set or the value is negative. It is not called for
-- another address family.
abbrev pub queried : Family → Option ℕ → Option ℕ
queried Family.af_other mtu = none
queried _ mtu = mtu

abbrev pub mtu_or_ethernet : Option ℕ → ℕ
mtu_or_ethernet none = 1500
mtu_or_ethernet (some mtu) = mtu

abbrev pub at_least : ℕ → ℕ → ℕ
at_least least n = if ltb n least then least else n

-- tftp_max_blksize; `mtu` is the answer of getsockint(). The subtraction that stops at 0 and the
-- source's negative sum are both below SEGSIZE.
unfoldable pub tftp_max_blksize : BlksizeArg → Family → (mtu : Option ℕ) → ℕ
tftp_max_blksize arg family mtu =
    let wanted : ℕ = elim arg [
      | below_mtu less ↦
          at_least segsize (mtu_or_ethernet (queried family mtu) - (less + overhead family))
      | absolute n ↦ at_least min_segsize n
    ] in
    if ltb max_segsize wanted then max_segsize else wanted

-- The largest block is between MIN_SEGSIZE and MAX_SEGSIZE, whatever the configuration, the
-- address family and the MTU are.
tftp_max_blksize-bounds :
    (arg : BlksizeArg) (family : Family) (mtu : Option ℕ)
    → (min_segsize ≤ tftp_max_blksize arg family mtu)
      × (tftp_max_blksize arg family mtu ≤ max_segsize)
unfolding tftp_max_blksize
tftp_max_blksize-bounds (below_mtu less) family mtu = (ground arith, ground arith)
tftp_max_blksize-bounds (absolute n) family mtu = (ground arith, ground arith)

-- A limit relative to the MTU: if the query of an IPv4 or IPv6 socket gives an MTU that holds
-- SEGSIZE bytes, the reserve and the headers, then a packet of the largest block with its headers
-- and the reserve is not longer than the MTU.
tftp_max_blksize-fits :
    (less m : ℕ) (family : Family)
    → queried family (some m) ≡ some m
    → segsize + (less + overhead family) ≤ m
    → tftp_max_blksize (below_mtu less) family (some m) + (less + overhead family) ≤ m
unfolding tftp_max_blksize
tftp_max_blksize-fits less m Family.af_inet q h = ground arith
tftp_max_blksize-fits less m Family.af_inet6 q h = ground arith
tftp_max_blksize-fits less m Family.af_other q h = absurd (ground arith)
