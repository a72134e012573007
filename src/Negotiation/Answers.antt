-- ===== src/Negotiation/Answers.antt =====
-- The options of an OACK that answers a request of the client: what the daemon puts into it, and
-- what the client makes of it.
use network_tftp_tftp_hpa.Prelude.{
  ℕ, ◌/◌, zero, suc, ◌+◌, ◌^◌, ◌%◌, ◌≤◌, ◌<◌, ◌≡◌, ◌⊎◌, inl, inr, refl, ◌∙◌, Bool, true, false, not,
  ◌&&◌, none, some, List, [], ◌∷◌, length, arith, ltb, if◌then◌else◌, ◌==◌,
}
use network_tftp_tftp_hpa.Packet.{segsize, min_segsize}
use network_tftp_tftp_hpa.Text.{ascii_strcaseeq}
use network_tftp_tftp_hpa.Text.Decimal.{decimal, decimal_on}
use network_tftp_tftp_hpa.Daemon.{
  Daemon, Limits, TsizeMode, ProtocolOption, opt_granted, opt_requested, grant_value,
}
use network_tftp_tftp_hpa.Daemon.Table.{startup, blksize_name, tsize_name, windowsize_name}
use network_tftp_tftp_hpa.Daemon.Negotiate.{
  negotiate_blksize, negotiate_windowsize, negotiate_tsize, negotiate_timeout, negotiate_rollover,
  negotiate_cookie, limited_window, size_by_blksize2,
}
use network_tftp_tftp_hpa.Daemon.Negotiate.Window.{limited_window-bounds}
use network_tftp_tftp_hpa.Daemon.Request.{refreshed}
use network_tftp_tftp_hpa.Daemon.Request.Split.{IsPlain}
use network_tftp_tftp_hpa.Daemon.Request.Oack.{granted_strings, IsTaken}
use network_tftp_tftp_hpa.Client.{Optreq, optreq_init, take_ack}
use network_tftp_tftp_hpa.Negotiation.Asked.{option_asked, decimal-IsPlain}
use network_tftp_tftp_hpa.Negotiation.Answered.{numbered, take_acks, AreNumbers}

decimal_on-length :
    (places n : ℕ) (later : List ℕ) → length (decimal_on places n later) ≤ places + length later
unfolding decimal_on
decimal_on-length zero n later = omega arith
decimal_on-length (suc places) n later =
    ground (arith, decimal_on-length places (n / 10) ((b'0' + n % 10) ∷ later))

decimal-length : (n : ℕ) → length (decimal n) ≤ 20
unfolding decimal
decimal-length n = decimal_on-length 20 n []

-- An option after the negotiation: granted with `v`, or as it was read.
abbrev pub answer : (there granted : Bool) (name : List ℕ) → (n v : ℕ) → ProtocolOption
answer there granted name n v =
    if granted then grant_value v (option_asked there name n) else option_asked there name n

-- The block size after the negotiation, and whether it is acknowledged.
pub blksize_answer :
    (there : Bool) (n max_blksize : ℕ) (d : Daemon)
    → min_segsize ≤ max_blksize
    → d.blksize ≡ option_asked there blksize_name n
    → opt_requested d.blksize2 ≡ false
    → (g : Bool) × (v : ℕ) × (negotiate_blksize max_blksize d ≡ record d {
      blksize = answer there g blksize_name n v;
      segsize = if g then v else segsize;
    })
      × ((g ≡ false) ⊎ ((there ≡ true) × (min_segsize ≤ v) × (v ≤ n)))
unfolding negotiate_blksize size_by_blksize2
blksize_answer true n max_blksize d lo e e2 = (
  not (ltb n min_segsize),
  (if ltb max_blksize n then max_blksize else n),
  ground arith,
  ground arith,
)
blksize_answer false n max_blksize d lo e e2 = (false, 0, ground arith, inl refl)

-- The window.
pub windowsize_answer :
    (there : Bool) (n : ℕ) (limits : Limits) (d : Daemon)
    → 1 ≤ d.segsize
    → d.windowsize ≡ option_asked there windowsize_name n
    → (g : Bool) × (v : ℕ) × (negotiate_windowsize limits d
        ≡ record d { windowsize = answer there g windowsize_name n v; window = if g then v else 1 })
      × ((g ≡ false) ⊎ ((there ≡ true) × (1 ≤ v) × (v ≤ n)))
unfolding negotiate_windowsize
windowsize_answer true n limits d s e =
    let v : ℕ = limited_window limits d.segsize n in
    (
      ltb 1 n && ltb 1 v,
      v,
      ground arith,
      ground (arith, limited_window-bounds limits d.segsize n s),
    )
windowsize_answer false n limits d s e = (false, 0, ground arith, inl refl)

-- The size.
pub tsize_answer :
    (mode : TsizeMode) (there : Bool) (n : ℕ) (d : Daemon)
    → d.tsize_mode ≡ mode
    → d.tsize ≡ option_asked there tsize_name n
    → n < 2 ^ 64
    → d.tsize_size < 2 ^ 64
    → (g : Bool) × (v size : ℕ) × (negotiate_tsize d
        ≡ record d { tsize = answer there g tsize_name n v; tsize_size = size })
      × ((g ≡ false) ⊎ ((there ≡ true) × (v < 2 ^ 64)))
unfolding negotiate_tsize
tsize_answer mode false n d em e lt fits = (false, 0, d.tsize_size, ground arith, inl refl)
tsize_answer TsizeMode.tsize_nak true n d em e lt fits =
    (false, 0, d.tsize_size, ground arith, inl refl)
tsize_answer TsizeMode.tsize_read true n d em e lt fits =
    (n == 0, d.tsize_size, d.tsize_size, ground arith, ground arith)
tsize_answer TsizeMode.tsize_write true n d em e lt fits = (true, n, n, ground arith, ground arith)

-- Nothing else is asked for.
pub rest_untouched :
    (d : Daemon)
    → opt_requested d.timeout ≡ false
    → opt_requested d.utimeout ≡ false
    → opt_requested d.rollover ≡ false
    → opt_requested d.cookie ≡ false
    → negotiate_cookie (negotiate_rollover (negotiate_timeout d)) ≡ record d { rollover_val = 0 }
unfolding negotiate_timeout negotiate_rollover negotiate_cookie
rest_untouched d t u r c = ground arith

-- The options of an OACK with their numbers.
abbrev pub entry_if : Bool → (name : List ℕ) → (v : ℕ) → List (List ℕ × ℕ) → List (List ℕ × ℕ)
entry_if g name v rest = if g then (name, v) ∷ rest else rest

abbrev pub entries : (gb gt gw : Bool) → (vb vt vw : ℕ) → List (List ℕ × ℕ)
entries gb gt gw vb vt vw =
    entry_if gb blksize_name vb (entry_if gt tsize_name vt (entry_if gw windowsize_name vw []))

-- The three options among those that are not asked for.
abbrev pub with_answers : (b t w : ProtocolOption) → List ProtocolOption
with_answers b t w =
    b ∷ startup.blksize2 ∷ startup.cookie ∷ startup.rollover ∷ startup.timeout ∷ t
    ∷ startup.utimeout ∷ w ∷ []

-- What an answer adds to the strings of the OACK.
pub granted_strings-answer :
    (there g : Bool) (name : List ℕ) (n v : ℕ) (pos : List ProtocolOption)
    (more : List (List ℕ × ℕ))
    → (g ≡ false) ⊎ (there ≡ true)
    → granted_strings pos ≡ numbered more
    → granted_strings (answer there g name n v ∷ pos) ≡ numbered (entry_if g name v more)
unfolding refreshed
granted_strings-answer true true name n v pos more h e = rw e refl
granted_strings-answer true false name n v pos more h e = e
granted_strings-answer false true name n v pos more h e = ground arith
granted_strings-answer false false name n v pos more h e = e

pub answer-IsTaken :
    (there g : Bool) (name : List ℕ) (n v : ℕ)
    → IsPlain name
    → (g ≡ false) ⊎ (there ≡ true)
    → (opt_granted (answer there g name n v) ≡ false) ⊎ IsTaken (answer there g name n v)
unfolding refreshed
answer-IsTaken true true name n v plain h =
    inr (refl, plain, decimal-IsPlain v, ground (arith, decimal-length v))
answer-IsTaken true false name n v plain h = inl refl
answer-IsTaken false true name n v plain h = ground arith
answer-IsTaken false false name n v plain h = inl refl

-- What the client makes of the entries.
abbrev pub acknowledged : (gb gt gw : Bool) → (vb vt vw : ℕ) → Optreq
acknowledged gb gt gw vb vt vw = record {
  has_blksize = gb && not gt;
  has_window = gw;
  has_tsize = gt;
  window = if gw then vw else 1;
  blksize = if gb then vb else segsize;
  tsize = if gt then some vt else none;
}

module _ (req : Optreq) (gb gt gw : Bool) (vb vt vw : ℕ)
    (b : (gb ≡ false) ⊎ ((req.has_blksize ≡ true) × (min_segsize ≤ vb) × (vb ≤ req.blksize)))
    (t : (gt ≡ false) ⊎ ((req.has_tsize ≡ true) × (vt < 2 ^ 64)))
    (w : (gw ≡ false) ⊎ ((req.has_window ≡ true) × (1 ≤ vw) × (vw ≤ req.window))) where
  step_blksize :
      (more : List (List ℕ × ℕ))
      → take_acks req (entry_if gb blksize_name vb more) optreq_init
        ≡ take_acks req more (acknowledged gb false false vb vt vw)
  unfolding take_ack ascii_strcaseeq
  step_blksize more = ground arith

  step_tsize :
      (more : List (List ℕ × ℕ))
      → take_acks req (entry_if gt tsize_name vt more) (acknowledged gb false false vb vt vw)
        ≡ take_acks req more (acknowledged gb gt false vb vt vw)
  unfolding take_ack ascii_strcaseeq
  step_tsize more = ground arith

  step_windowsize :
      take_acks req (entry_if gw windowsize_name vw []) (acknowledged gb gt false vb vt vw)
      ≡ some (acknowledged gb gt gw vb vt vw)
  unfolding take_ack ascii_strcaseeq
  step_windowsize = ground arith

  pub take_acks-entries :
      take_acks req (entries gb gt gw vb vt vw) optreq_init ≡ some (acknowledged gb gt gw vb vt vw)
  take_acks-entries =
      step_blksize (entry_if gt tsize_name vt (entry_if gw windowsize_name vw []))
      ∙ step_tsize (entry_if gw windowsize_name vw [])
      ∙ step_windowsize

pub entry_if-AreNumbers :
    (g : Bool) (name : List ℕ) (v : ℕ) (more : List (List ℕ × ℕ))
    → IsPlain name
    → (g ≡ false) ⊎ (v < 2 ^ 64)
    → AreNumbers more
    → AreNumbers (entry_if g name v more)
entry_if-AreNumbers true name v more plain (inl no_entry) h = cc
entry_if-AreNumbers true name v more plain (inr lt) h = ((plain, lt), h)
entry_if-AreNumbers false name v more plain lt h = h
