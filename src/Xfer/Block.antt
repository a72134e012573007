-- ===== src/Xfer/Block.antt =====
-- next_block of common/tftp-xfer.c: 16-bit block numbers with a rollover value.
use network_tftp_tftp_hpa.Prelude.{
  ℕ, zero, suc, ◌+◌, ◌-◌, ◌%◌, ◌^◌, ◌<◌, ◌≡◌, arith, ◌==◌, if◌then◌else◌,
}

-- `++block` wraps at 2^16.
unfoldable pub next_block : ℕ → ℕ → ℕ
next_block block rollover = let b = (block + 1) % 2 ^ 16 in if b == 0 then rollover else b

-- The number of the `k`-th DATA packet of a transfer, counted from 0.
unfoldable pub block_at : ℕ → ℕ → ℕ
block_at rollover zero = 1
block_at rollover (suc k) = next_block (block_at rollover k) rollover

pub block_at-lt : (rollover k : ℕ) → rollover < 2 ^ 16 → block_at rollover k < 2 ^ 16
unfolding block_at next_block
block_at-lt r zero h = omega arith
block_at-lt r (suc k) h = ground (arith, block_at-lt r k h)

-- With a rollover value of 0, packet `k`, counted from 0, has the number k + 1 modulo 2^16.
pub block_at_zero : (k : ℕ) → block_at 0 k ≡ (k + 1) % 2 ^ 16
unfolding block_at next_block
block_at_zero zero = omega arith
block_at_zero (suc k) = ground (arith, block_at_zero k)

-- With a rollover value of 1 the block numbers go round 1 to 65535, and never take the value 0:
-- packet `k`, counted from 0, has the number that `k` leaves modulo 65535, and 1 more.
pub block_at_one : (k : ℕ) → block_at 1 k ≡ k % (2 ^ 16 - 1) + 1
unfolding block_at next_block
block_at_one zero = omega arith
block_at_one (suc k) = ground (arith, block_at_one k)
