-- ===== src/Daemon/Negotiate.antt =====
-- tftpd/tftpd.c, negotiate_*(): which options are acknowledged, and with which value.
pub mod Block
pub mod Window
pub mod Timeout
use Prim.Native.Nat.{bit_and}
use network_tftp_tftp_hpa.Prelude.{
  ℕ, zero, suc, ◌+◌, ◌-◌, ◌*◌, ◌/◌, Bool, true, false, not, ◌&&◌, ◌||◌, ltb, leb, ◌==◌,
  if◌then◌else◌,
}
use network_tftp_tftp_hpa.Packet.{
  min_segsize, segsize, usec_per_sec, min_timeout, max_timeout, min_timeout_sec, max_timeout_sec,
  timeout_limit, max_cookie,
}
use network_tftp_tftp_hpa.Daemon.{
  ProtocolOption, Daemon, Limits, TsizeMode, opt_requested, grant, grant_value,
}

-- blksize & (blksize - 1), which clears the lowest bit
unfoldable pub clear_lowest : ℕ → ℕ
clear_lowest n = bit_and n (n - 1)

-- The loop that rounds down to a power of 2.
unfoldable pub round_down : (fuel : ℕ) → ℕ → ℕ
round_down zero n = n
round_down (suc fuel) n = elim (clear_lowest n) [ zero ↦ n | suc lb ↦ round_down fuel (suc lb) ]

-- blksize after the first test: 0 where blk2 is or becomes NULL.
unfoldable pub size_by_blksize2 : (max_blksize : ℕ) → ProtocolOption → ℕ
size_by_blksize2 max_blksize blk2 =
    let n = if ltb max_blksize blk2.uint then max_blksize else blk2.uint in
    if opt_requested blk2 && not (ltb blk2.uint min_segsize) then round_down n n else 0

-- Whether blk is not NULL after the second test.
abbrev pub blksize_kept : (max_blksize size2 : ℕ) → ProtocolOption → Bool
blksize_kept max_blksize size2 blk =
    (opt_requested blk && not (ltb blk.uint min_segsize))
    && (ltb max_blksize blk.uint || not (ltb blk.uint size2))

-- blksize after the second test
abbrev pub size_by_both : (max_blksize size2 : ℕ) → ProtocolOption → ℕ
size_by_both max_blksize size2 blk =
    if blksize_kept max_blksize size2 blk
    then (if ltb max_blksize blk.uint then max_blksize else blk.uint)
    else size2

unfoldable pub negotiate_blksize : (max_blksize : ℕ) → Daemon → Daemon
negotiate_blksize max_blksize d =
    let size2 = size_by_blksize2 max_blksize d.blksize2 in
    let size = size_by_both max_blksize size2 d.blksize in
    let blk = blksize_kept max_blksize size2 d.blksize && not (size == 0) in
    let blk2 =
      (opt_requested d.blksize2 && not (ltb d.blksize2.uint min_segsize))
      && (not (size == 0) && clear_lowest size == 0) in
    record d {
      blksize = if blk then grant_value size d.blksize else d.blksize;
      blksize2 = if blk2 then grant_value size d.blksize2 else d.blksize2;
      segsize = if blk || blk2 then size else segsize;
    }

-- The window under both limits.
unfoldable pub limited_window : Limits → (segsize requested : ℕ) → ℕ
limited_window limits size requested =
    let n = if ltb limits.max_windowsize requested then limits.max_windowsize else requested in
    if ltb limits.max_windowbytes (n * size) then limits.max_windowbytes / size else n

unfoldable pub negotiate_windowsize : Limits → Daemon → Daemon
negotiate_windowsize limits d =
    let n = limited_window limits d.segsize d.windowsize.uint in
    if (opt_requested d.windowsize && ltb 1 d.windowsize.uint) && ltb 1 n
    then record d { windowsize = grant_value n d.windowsize; window = n }
    else record d { window = 1 }

unfoldable pub negotiate_tsize : Daemon → Daemon
negotiate_tsize d =
    let answered : Daemon = elim d.tsize_mode [
      | TsizeMode.tsize_nak ↦ d
      | TsizeMode.tsize_read ↦
          if d.tsize.uint == 0 then record d { tsize = grant_value d.tsize_size d.tsize } else d
      | TsizeMode.tsize_write ↦ record d { tsize_size = d.tsize.uint; tsize = grant d.tsize }
    ] in
    if opt_requested d.tsize then answered else d

-- The timeout option and the utimeout option are in their ranges.
abbrev pub timeout_usable : ProtocolOption → Bool
timeout_usable tos =
    opt_requested tos && (leb min_timeout_sec tos.uint && leb tos.uint max_timeout_sec)

abbrev pub utimeout_usable : ProtocolOption → Bool
utimeout_usable tou = opt_requested tou && (leb min_timeout tou.uint && leb tou.uint max_timeout)

unfoldable pub negotiate_timeout : Daemon → Daemon
negotiate_timeout d =
    let tos_us = if timeout_usable d.timeout then d.timeout.uint * usec_per_sec else 0 in
    let to = if utimeout_usable d.utimeout then d.utimeout.uint else tos_us in
    let tos = timeout_usable d.timeout && tos_us == to in
    let d' = record d {
      timeout = if tos then grant d.timeout else d.timeout;
      utimeout = if utimeout_usable d.utimeout then grant d.utimeout else d.utimeout;
    } in
    if to == 0
    then d'
    else record d' { rexmtval = to; timeout_now = to; maxtimeout = to * timeout_limit }

unfoldable pub negotiate_rollover : Daemon → Daemon
negotiate_rollover d =
    if opt_requested d.rollover && leb d.rollover.uint 1
    then record d { rollover_val = d.rollover.uint; rollover = grant d.rollover }
    else record d { rollover_val = 0 }

unfoldable pub negotiate_cookie : Daemon → Daemon
negotiate_cookie d =
    if opt_requested d.cookie && leb d.cookie.dsize (max_cookie + 1)
    then record d { cookie = grant d.cookie }
    else d

-- negotiate_options up to the call of build_oack
unfoldable pub negotiate_all : (max_blksize : ℕ) → Limits → Daemon → Daemon
unfolding clear_lowest round_down size_by_blksize2 limited_window negotiate_blksize
    negotiate_windowsize negotiate_tsize negotiate_timeout negotiate_rollover negotiate_cookie
negotiate_all max_blksize limits d = negotiate_cookie (
    negotiate_rollover (
      negotiate_timeout
        (negotiate_tsize (negotiate_windowsize limits (negotiate_blksize max_blksize d)))))

-- io_ring_slots() with threads
unfoldable pub io_ring_slots : (segsize windowsize : ℕ) → ℕ
io_ring_slots size windowsize =
    let slots = (size + 262144 - 1) / size in
    let slots' = if ltb slots windowsize then windowsize else slots in
    windowsize + (if ltb slots' 2 then 2 else slots')
