-- ===== src/Daemon/Negotiate/Block.antt =====
-- The block size that negotiate_blksize() settles on.
use network_tftp_tftp_hpa.Prelude.{
  holds_below, holds_below_lem, nat-cases, ℕ, zero, suc, ◌≤◌, ◌<◌, ◌≡◌, refl, Bool, true, false,
  not, ◌&&◌, ◌||◌, ◌⊎◌, inl, inr, arith, if◌then◌else◌, leb, ltb, ◌==◌,
}
use network_tftp_tftp_hpa.Packet.{min_segsize, segsize, max_segsize}
use network_tftp_tftp_hpa.Daemon.{Daemon, ProtocolOption, opt_granted, opt_requested}
use network_tftp_tftp_hpa.Daemon.Negotiate.{
  clear_lowest, round_down, size_by_blksize2, negotiate_blksize,
}

-- Clearing the lowest bit of a number from 8 up leaves nothing or a smaller number from 8 up.
clears_well : ℕ → Bool
clears_well n =
    ltb n 8 || (clear_lowest n == 0 || (leb 8 (clear_lowest n) && ltb (clear_lowest n) n))

clears_table : holds_below clears_well 65465 ≡ true
unfolding holds_below clears_well clear_lowest
clears_table = refl

clear_lowest-bounds :
    (n : ℕ)
    → 8 ≤ n
    → n ≤ max_segsize
    → (clear_lowest n ≡ 0) ⊎ ((8 ≤ clear_lowest n) × (clear_lowest n < n))
unfolding clears_well
clear_lowest-bounds n lo hi =
    let t = holds_below_lem clears_well 65465 clears_table n (omega arith) in ground (arith, t)

-- The loop that rounds down ends within `fuel` rounds at a power of 2 that is no larger, and no
-- smaller than 8.
round_down-bounds :
    (fuel n : ℕ)
    → n ≤ fuel
    → 8 ≤ n
    → n ≤ max_segsize
    → (8 ≤ round_down fuel n) × (round_down fuel n ≤ n) × (clear_lowest (round_down fuel n) ≡ 0)
unfolding round_down
round_down-bounds zero n f lo hi = absurd (omega arith)
round_down-bounds (suc fuel) n f lo hi = elim (nat-cases (clear_lowest n)) [
  | inl e ↦ ground (arith, e)
  | inr (lb, e) ↦ ground (arith, e, clear_lowest-bounds n lo hi, round_down-bounds fuel (suc lb))
]

size_by_blksize2-bounds :
    (max_blksize : ℕ) (blk2 : ProtocolOption)
    → 8 ≤ max_blksize
    → max_blksize ≤ max_segsize
    → let usable = opt_requested blk2 && not (ltb blk2.uint min_segsize) in
      let size2 = size_by_blksize2 max_blksize blk2 in
      ((usable ≡ false) × (size2 ≡ 0))
      ⊎ ((usable ≡ true)
          × (8 ≤ size2)
          × (size2 ≤ max_blksize)
          × (size2 ≤ blk2.uint)
          × (clear_lowest size2 ≡ 0))
unfolding size_by_blksize2
size_by_blksize2-bounds max_blksize blk2 lo hi =
    let n : ℕ = if ltb max_blksize blk2.uint then max_blksize else blk2.uint in
    ground (arith, round_down-bounds n n)

-- What may become of the two options: `d` stands before, `d'` after the negotiation. Either no
-- option is acknowledged and the block size is SEGSIZE, or the block size is at least MIN_SEGSIZE
-- and no more than the largest block, and: blksize stays as it was, or it is granted with the block
-- size as its value, which is no more than the client asked for; and blksize2 stays as it was, or it
-- is granted with the block size as its value, which is a power of 2, and no more than the client
-- asked for unless blksize is granted too.
abbrev pub BlksizeChosen : (max_blksize : ℕ) (d d' : Daemon) → Type 0
BlksizeChosen max_blksize d d' =
    ((d'.segsize ≡ segsize) × (d'.blksize ≡ d.blksize) × (d'.blksize2 ≡ d.blksize2))
    ⊎ ((min_segsize ≤ d'.segsize)
        × (d'.segsize ≤ max_blksize)
        × ((d'.blksize ≡ d.blksize)
            ⊎ ((opt_granted d'.blksize ≡ true)
                × (d'.blksize.uint ≡ d'.segsize)
                × (d'.segsize ≤ d.blksize.uint)))
        × ((d'.blksize2 ≡ d.blksize2)
            ⊎ ((opt_granted d'.blksize2 ≡ true)
                × (d'.blksize2.uint ≡ d'.segsize)
                × (clear_lowest d'.segsize ≡ 0)
                × ((d'.segsize ≤ d.blksize2.uint) ⊎ (opt_granted d'.blksize ≡ true)))))

-- If the largest block is between MIN_SEGSIZE and MAX_SEGSIZE, and neither option was acknowledged
-- before, then negotiate_blksize chooses as BlksizeChosen says: a size within the limits with
-- consistent acknowledgements, or SEGSIZE with none.
pub negotiate_blksize-bounds :
    (max_blksize : ℕ) (d : Daemon)
    → min_segsize ≤ max_blksize
    → max_blksize ≤ max_segsize
    → d.blksize.acked ≡ false
    → d.blksize2.acked ≡ false
    → BlksizeChosen max_blksize d (negotiate_blksize max_blksize d)
unfolding negotiate_blksize
negotiate_blksize-bounds max_blksize d lo hi a a2 =
    ground (arith, size_by_blksize2-bounds max_blksize d.blksize2 lo hi)
