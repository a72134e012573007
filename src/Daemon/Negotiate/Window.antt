-- ===== src/Daemon/Negotiate/Window.antt =====
-- The window that negotiate_windowsize() settles on, and the ring for it.
use native.Mathlib.Nat.{
  div-mul-le_self, div-lt_iff_lt-mul, mod-add-div', mod-lt, mul-le-mul_right, add-mul,
}
use network_tftp_tftp_hpa.Prelude.{
  ℕ, ◌+◌, ◌*◌, ◌/◌, ◌≤◌, ◌<◌, ◌≡◌, ◌-◌, ap, Bool, true, false, ◌&&◌, ltb, Bool-cases, ◌⊎◌, inl, inr,
  ◌↔◌, if◌then◌else◌, arith,
}
use network_tftp_tftp_hpa.Daemon.{Daemon, Limits, opt_granted, opt_requested}
use network_tftp_tftp_hpa.Daemon.Negotiate.{negotiate_windowsize, limited_window, io_ring_slots}

pub limited_window-bounds :
    (limits : Limits) (size requested : ℕ)
    → 1 ≤ size
    → let n = limited_window limits size requested in
      (n ≤ requested) × (n ≤ limits.max_windowsize) × (n * size ≤ limits.max_windowbytes)
unfolding limited_window
limited_window-bounds limits size requested h =
    let q = div-mul-le_self limits.max_windowbytes size in
    let n : ℕ = if ltb limits.max_windowsize requested then limits.max_windowsize else requested in
    let less : (limits.max_windowbytes / size < n) ↔ (limits.max_windowbytes < n * size) =
      div-lt_iff_lt-mul h in
    let quotient : ℕ = limits.max_windowbytes / size in
    elim (Bool-cases (ltb limits.max_windowbytes (n * size))) [
      | inl over ↦ (ground (arith, q), ground arith, ground arith)
      | inr under ↦ (ground arith, ground arith, ground arith)
    ]

-- What may become of the option and of the window: either a window of one block and the option as
-- it was, or a larger window. Then the option is granted, the value sent is the window in use, which
-- is no more than the client asked for and --windowsize allows, and the bytes of a window are no
-- more than --window-bytes.
abbrev pub WindowChosen : Limits → (d d' : Daemon) → Type 0
WindowChosen limits d d' =
    ((d'.window ≡ 1) × (d'.windowsize ≡ d.windowsize))
    ⊎ ((opt_granted d'.windowsize ≡ true)
        × (d'.windowsize.uint ≡ d'.window)
        × (1 < d'.window)
        × (d'.window ≤ d.windowsize.uint)
        × (d'.window ≤ limits.max_windowsize)
        × (d'.window * d'.segsize ≤ limits.max_windowbytes))

-- If the block size is not 0 and the windowsize option was not acknowledged before, then
-- negotiate_windowsize chooses as WindowChosen says: a window within all limits that is
-- acknowledged as it is, or one block.
pub negotiate_windowsize-bounds :
    (limits : Limits) (d : Daemon)
    → 1 ≤ d.segsize
    → d.windowsize.acked ≡ false
    → WindowChosen limits d (negotiate_windowsize limits d)
unfolding negotiate_windowsize
negotiate_windowsize-bounds limits d s a =
    let n = limited_window limits d.segsize d.windowsize.uint in
    let b = limited_window-bounds limits d.segsize d.windowsize.uint s in
    let test : Bool = (opt_requested d.windowsize && ltb 1 d.windowsize.uint) && ltb 1 n in
    elim (Bool-cases test) [ inl more ↦ inr (ground (arith, b)) | inr one ↦ inl (ground arith) ]

-- The ring of a threaded transfer holds a window for retransmission and, beside it, another
-- window, two blocks, and 256 KiB. The block size must not be 0.
io_ring_slots-room :
    (size windowsize : ℕ)
    → 1 ≤ size
    → (windowsize + windowsize ≤ io_ring_slots size windowsize)
      × (windowsize + 2 ≤ io_ring_slots size windowsize)
      × (windowsize * size + 262144 ≤ io_ring_slots size windowsize * size)
unfolding io_ring_slots
io_ring_slots-room size windowsize s =
    let q : ℕ = (size + 262144 - 1) / size in
    let whole : 262144 ≤ q * size =
      omega (arith, mod-add-div' (size + 262144 - 1) size, mod-lt (size + 262144 - 1) s) in
    let io_slots : ℕ = io_ring_slots size windowsize - windowsize in
    let parts : (io_ring_slots size windowsize ≡ windowsize + io_slots) × (q ≤ io_slots) =
      (ground arith, ground arith) in
    let scaled : q * size ≤ io_slots * size = mul-le-mul_right size parts.1 in
    (
      ground arith,
      ground arith,
      grind (arith, ap (λ r. r * size) parts.0, scaled, whole, add-mul windowsize io_slots size),
    )
