-- ===== src/Serve/Tries.antt =====
-- The attempts to send an OACK: TRIES of common/tftp.h.
use network_tftp_tftp_hpa.Prelude.{
  ℕ, zero, suc, ◌+◌, ◌*◌, ◌^◌, ◌≤◌, ◌<◌, ◌≡◌, refl, sym, ap, ◌∙◌, Bool, true, List, [], ◌∷◌, ◌++◌,
  replicate, append-nil, arith,
}
use native.Mathlib.Nat.{pow-succ', mul_assoc, mul-le-mul_left, add_comm}
use network_tftp_tftp_hpa.Packet.{timeout_limit}
use network_tftp_tftp_hpa.Daemon.{Daemon}
use network_tftp_tftp_hpa.Serve.{Heard, expired, timer}
use network_tftp_tftp_hpa.Serve.Exchange.{waiting, exited, on_heard, exchange, exchange_start}

double_lem : (t k : ℕ) → t * 2 ^ suc k ≡ t * 2 * 2 ^ k
double_lem t k = ap (λ p. t * p) (pow-succ' 2 k) ∙ sym (mul_assoc t 2 (2 ^ k))

pow_some : (k : ℕ) → 0 < 2 ^ k
pow_some zero = omega arith
pow_some (suc k) = omega (arith, pow-succ' 2 k, pow_some k)

le_mul : (a b : ℕ) → 0 < b → a ≤ a * b
le_mul a (suc b) h = omega arith
le_mul a zero h = absurd (omega arith)

pow_at_most : (k : ℕ) → k < 6 → 2 ^ k ≤ 32
pow_at_most zero lt = omega arith
pow_at_most (suc zero) lt = omega arith
pow_at_most (suc (suc zero)) lt = omega arith
pow_at_most (suc (suc (suc zero))) lt = omega arith
pow_at_most (suc (suc (suc (suc zero)))) lt = omega arith
pow_at_most (suc (suc (suc (suc (suc zero))))) lt = omega arith
pow_at_most (suc (suc (suc (suc (suc (suc k)))))) lt = absurd (omega arith)

module _ (send_ok : ℕ → Bool) (d : Daemon) (ok : (n : ℕ) → send_ok n ≡ true) where
  -- A timeout that stays below the limit makes the OACK go out again.
  on_expired-again :
      (timeout sent : ℕ)
      → timeout * 2 < d.maxtimeout
      → d.maxtimeout < 2 ^ 64
      → on_heard send_ok d expired timeout sent ≡ waiting (timeout * 2) (sent + 1)
  unfolding on_heard timer
  on_expired-again timeout sent below fits = ground (arith, ok sent)

  on_expired-exited :
      (timeout sent : ℕ)
      → d.maxtimeout ≤ timeout * 2
      → timeout * 2 < 2 ^ 64
      → on_heard send_ok d expired timeout sent ≡ exited sent
  unfolding on_heard timer
  on_expired-exited timeout sent above fits = ground arith

  exchange-cons :
      (h : Heard) (hs : List Heard) (timeout sent : ℕ)
      → exchange send_ok d (h ∷ hs) (waiting timeout sent)
        ≡ exchange send_ok d hs (on_heard send_ok d h timeout sent)
  unfolding exchange
  exchange-cons h hs timeout sent = refl

  exchange-exited : (hs : List Heard) (n : ℕ) → exchange send_ok d hs (exited n) ≡ exited n
  unfolding exchange
  exchange-exited [] n = refl
  exchange-exited (h ∷ hs) n = refl

  exchange-waiting :
      (timeout sent : ℕ) → exchange send_ok d [] (waiting timeout sent) ≡ waiting timeout sent
  unfolding exchange
  exchange-waiting timeout sent = refl

  -- k timeouts in a row, of which none reaches the limit.
  exchange-expired :
      (k timeout sent : ℕ) (rest : List Heard)
      → timeout * 2 ^ k < d.maxtimeout
      → d.maxtimeout < 2 ^ 64
      → exchange send_ok d (replicate k expired ++ rest) (waiting timeout sent)
        ≡ exchange send_ok d rest (waiting (timeout * 2 ^ k) (sent + k))
  exchange-expired zero timeout sent rest below fits =
      let e : timeout * 1 ≡ timeout = omega arith in
      let f : sent + 0 ≡ sent = omega arith in rw (e, f) refl
  exchange-expired (suc k) timeout sent rest below fits =
      let double : timeout * 2 ^ suc k ≡ timeout * 2 * 2 ^ k = double_lem timeout k in
      let small : timeout * 2 < d.maxtimeout =
        omega (arith, double, le_mul (timeout * 2) (2 ^ k) (pow_some k)) in
      let f : sent + suc k ≡ sent + 1 + k = omega arith in
      exchange-cons expired (replicate k expired ++ rest) timeout sent
      ∙ ap (exchange send_ok d (replicate k expired ++ rest))
          (on_expired-again timeout sent small fits)
      ∙ exchange-expired k (timeout * 2) (sent + 1) rest (omega (arith, double)) fits
      ∙ rw (double, f) refl

  -- If every send() succeeds and the longest timeout is the limit of the code, 63 times the first
  -- one, then a peer that stays silent is sent the OACK exactly 6 times: after k < 6 timeouts it
  -- was sent k + 1 times, and after the sixth the process has exited, whatever comes then. The
  -- first timeout must not be 0, and 64 times that timeout must fit into 64 bits.
  pub exchange-silent :
      (k : ℕ) (more : List Heard)
      → k < 6
      → 0 < d.rexmtval
      → d.maxtimeout ≡ d.rexmtval * timeout_limit
      → d.rexmtval * 64 < 2 ^ 64
      → (exchange send_ok d (replicate k expired) (exchange_start send_ok d)
          ≡ waiting (d.rexmtval * 2 ^ k) (k + 1))
        × (exchange send_ok d (replicate 6 expired ++ more) (exchange_start send_ok d) ≡ exited 6)
  exchange-silent k more lt pos limit fits =
      let start : exchange_start send_ok d ≡ waiting d.rexmtval 1 = rw (ok 0) refl in
      (
        rw start (
            ap (λ hs. exchange send_ok d hs (waiting d.rexmtval 1))
              (sym (append-nil (replicate k expired)))
            ∙ exchange-expired k d.rexmtval 1 []
                (omega (arith, mul-le-mul_left d.rexmtval (pow_at_most k lt))) (omega arith)
            ∙ exchange-waiting (d.rexmtval * 2 ^ k) (1 + k)
            ∙ ap (waiting (d.rexmtval * 2 ^ k)) (add_comm 1 k)),
        rw start (
            exchange-expired 5 d.rexmtval 1 (expired ∷ more) (omega arith) (omega arith)
            ∙ exchange-cons expired more (d.rexmtval * 2 ^ 5) 6
            ∙ ap (exchange send_ok d more)
                (on_expired-exited (d.rexmtval * 2 ^ 5) 6 (omega arith) (omega arith))
            ∙ exchange-exited more 6),
      )
