-- ===== src/Negotiation/Agreed.antt =====
-- The client's view after the OACK against the daemon's.
use network_tftp_tftp_hpa.Prelude.{
  ℕ, list-cases, ◌^◌, ◌≤◌, ◌<◌, ◌≡◌, ◌≢◌, ◌⊎◌, inl, inr, refl, sym, ap, ◌∙◌, subst, Bool, true,
  false, Option, none, some, List, [], ◌∷◌, length, All, arith, if◌then◌else◌, ◌==◌,
}
use network_tftp_tftp_hpa.Packet.{segsize, min_segsize}
use network_tftp_tftp_hpa.Packet.Opcode
use network_tftp_tftp_hpa.Daemon.{Daemon, Limits, TsizeMode}
use network_tftp_tftp_hpa.Daemon.Table.{startup, blksize_name, tsize_name, windowsize_name}
use network_tftp_tftp_hpa.Daemon.Negotiate.{
  negotiate_all, negotiate_windowsize, negotiate_tsize, negotiate_timeout, negotiate_rollover,
  negotiate_cookie,
}
use network_tftp_tftp_hpa.Daemon.Request.{build_oack, negotiate_options, options_of, unless_empty}
use network_tftp_tftp_hpa.Daemon.Request.Split.{IsPlain, packed}
use network_tftp_tftp_hpa.Daemon.Request.Oack.{
  granted_strings, AreTaken, oack_stuff-packed, packed-unless_empty,
}
use network_tftp_tftp_hpa.Client.{Optreq, optreq_init, parse_oack}
use network_tftp_tftp_hpa.Client.Request.{size_or_zero}
use network_tftp_tftp_hpa.Negotiation.Asked.{asked, Fits, decimal-IsPlain}
use network_tftp_tftp_hpa.Negotiation.Answered.{
  numbered, take_acks, AreNumbers, acks-numbered, length-numbered,
}
use network_tftp_tftp_hpa.Negotiation.Answers.{
  answer, entries, entry_if, acknowledged, with_answers, blksize_answer, windowsize_answer,
  tsize_answer, rest_untouched, granted_strings-answer, answer-IsTaken, take_acks-entries,
  entry_if-AreNumbers,
}

numbered-IsPlain : (es : List (List ℕ × ℕ)) → AreNumbers es → All IsPlain (numbered es)
numbered-IsPlain [] h = tt
numbered-IsPlain ((name, n) ∷ es) h = (h.0.0, (decimal-IsPlain n, numbered-IsPlain es h.1))

-- A packet that carries these entries, or none if there is no entry, and what the client reads.
oack_read :
    (req : Optreq) (es : List (List ℕ × ℕ)) (ack : Optreq)
    → AreNumbers es
    → take_acks req es optreq_init ≡ some ack
    → es ≢ []
    → parse_oack req Opcode.oack (packed (numbered es)) ≡ some ack
unfolding parse_oack
oack_read req [] ack h e n = absurd (n refl)
oack_read req (x ∷ xs) ack h e n =
    let es = x ∷ xs in
    let enough = length-numbered es in
    let read = acks-numbered (length (packed (numbered es))) req es optreq_init ack enough h e in
    let some_bytes : (length (packed (numbered es)) == 0) ≡ false = ground (arith, enough) in
    rw some_bytes read

-- The daemon that has read the request, with the size of the file.
abbrev pub reads : Optreq → TsizeMode → (size : ℕ) → Daemon
reads req mode size = record (asked req) { tsize_mode = mode; tsize_size = size }

-- The window_thereo sides use the same block size and the same window: the defaults if there is no OACK, and
-- what the client reads in the OACK if there is one.
abbrev pub Agree : Optreq → Daemon × Option (List ℕ) → Type 0
Agree req (d, oack) =
    ((oack ≡ none) × (d.segsize ≡ segsize) × (d.window ≡ 1))
    ⊎ ((bytes : List ℕ) × (ack : Optreq) × (oack ≡ some bytes)
        × (parse_oack req Opcode.oack bytes ≡ some ack)
        × (ack.blksize ≡ d.segsize)
        × (ack.window ≡ d.window))

numbered-ne_nil :
    (x : List ℕ × ℕ) (xs : List (List ℕ × ℕ)) {es : List (List ℕ × ℕ)}
    → es ≡ x ∷ xs
    → numbered es ≢ []
numbered-ne_nil (name, n) xs e = subst (λ l. numbered l ≢ []) (sym e) (λ q. cc)

module _ (req : Optreq) (gb gt gw : Bool) (vb vt vw : ℕ) (d : Daemon)
    (b : (gb ≡ false) ⊎ ((req.has_blksize ≡ true) × (min_segsize ≤ vb) × (vb ≤ req.blksize)))
    (t : (gt ≡ false) ⊎ ((req.has_tsize ≡ true) × (vt < 2 ^ 64)))
    (w : (gw ≡ false) ⊎ ((req.has_window ≡ true) × (1 ≤ vw) × (vw ≤ req.window))) (fits : Fits req)
    (options : options_of d
      ≡ with_answers
          (answer req.has_blksize gb blksize_name req.blksize vb)
          (answer req.has_tsize gt tsize_name (size_or_zero req.tsize) vt)
          (answer req.has_window gw windowsize_name req.window vw))
    (size : d.segsize ≡ (if gb then vb else segsize))
    (window : d.window ≡ (if gw then vw else 1)) where
  blksize_there : (gb ≡ false) ⊎ (req.has_blksize ≡ true)
  blksize_there = ground arith

  tsize_there : (gt ≡ false) ⊎ (req.has_tsize ≡ true)
  tsize_there = ground arith

  window_there : (gw ≡ false) ⊎ (req.has_window ≡ true)
  window_there = ground arith

  es-AreNumbers : AreNumbers (entries gb gt gw vb vt vw)
  es-AreNumbers = entry_if-AreNumbers gb blksize_name vb _ (ground arith) (ground arith) (
      entry_if-AreNumbers gt tsize_name vt _ (ground arith) (ground arith)
        (entry_if-AreNumbers gw windowsize_name vw [] (ground arith) (ground arith) tt))

  answers-AreTaken : AreTaken (options_of d)
  answers-AreTaken =
      let of_blksize =
        answer-IsTaken req.has_blksize gb blksize_name req.blksize vb (ground arith)
          blksize_there in
      let of_tsize =
        answer-IsTaken req.has_tsize gt tsize_name (size_or_zero req.tsize) vt (ground arith)
          tsize_there in
      let of_windowsize =
        answer-IsTaken req.has_window gw windowsize_name req.window vw (ground arith)
          window_there in
      subst AreTaken (sym options) (
        of_blksize,
        (inl refl, (inl refl, (inl refl, (inl refl, (of_tsize, (inl refl, (of_windowsize, tt))))))),
      )

  strings : granted_strings (options_of d) ≡ numbered (entries gb gt gw vb vt vw)
  strings =
      let tsize_option = answer req.has_tsize gt tsize_name (size_or_zero req.tsize) vt in
      let windowsize_option = answer req.has_window gw windowsize_name req.window vw in
      ap granted_strings options
      ∙ granted_strings-answer req.has_blksize gb blksize_name req.blksize vb
          (startup.blksize2 ∷ startup.cookie ∷ startup.rollover ∷ startup.timeout ∷ tsize_option
            ∷ startup.utimeout ∷ windowsize_option ∷ [])
          (entry_if gt tsize_name vt (entry_if gw windowsize_name vw [])) blksize_there
          (granted_strings-answer req.has_tsize gt tsize_name (size_or_zero req.tsize) vt
            (startup.utimeout ∷ windowsize_option ∷ []) (entry_if gw windowsize_name vw [])
            tsize_there
            (granted_strings-answer req.has_window gw windowsize_name req.window vw [] []
              window_there refl))

  build : build_oack d ≡ unless_empty (packed (numbered (entries gb gt gw vb vt vw)))
  unfolding build_oack
  build = ap unless_empty (oack_stuff-packed (options_of d) answers-AreTaken ∙ ap packed strings)

  pub build_oack-Agree : Agree req (d, build_oack d)
  build_oack-Agree = elim (list-cases (entries gb gt gw vb vt vw)) [
    | inl e ↦
        inl (build ∙ ap (λ l. unless_empty (packed (numbered l))) e, ground arith, ground arith)
    | inr (x, xs, e) ↦
        let some_entry : entries gb gt gw vb vt vw ≢ [] = λ q. cc in
        inr (
          packed (numbered (entries gb gt gw vb vt vw)),
          acknowledged gb gt gw vb vt vw,
          build
              ∙ packed-unless_empty (numbered (entries gb gt gw vb vt vw))
                  (numbered-IsPlain (entries gb gt gw vb vt vw) es-AreNumbers)
                  (numbered-ne_nil x xs e),
          oack_read req (entries gb gt gw vb vt vw) (acknowledged gb gt gw vb vt vw) es-AreNumbers
              (take_acks-entries req gb gt gw vb vt vw b t w) some_entry,
          sym size,
          sym window,
        )
  ]

abbrev finish : Daemon → Daemon
finish d = negotiate_cookie (negotiate_rollover (negotiate_timeout d))

accepted :
    (max_blksize : ℕ) (limits : Limits) (d : Daemon)
    → limits.reject_all_options ≡ false
    → negotiate_options max_blksize limits d
      ≡ (negotiate_all max_blksize limits d, build_oack (negotiate_all max_blksize limits d))
unfolding negotiate_options
accepted max_blksize limits d r = rw r refl

-- If the options are not rejected and the daemon's limit is at least MIN_SEGSIZE, then after
-- negotiate_options on a request of the client, in any mode and for any size of the file, the
-- daemon and the client agree: without an OACK the daemon uses SEGSIZE and one block, and an OACK
-- is one that parse_oack accepts, with the block size and the window that the daemon uses. The
-- numbers of the request and the size must fit into 64 bits.
pub negotiate_options-parse_oack :
    (max_blksize : ℕ) (limits : Limits) (req : Optreq) (mode : TsizeMode) (size : ℕ)
    → min_segsize ≤ max_blksize
    → limits.reject_all_options ≡ false
    → Fits req
    → size < 2 ^ 64
    → Agree req (negotiate_options max_blksize limits (reads req mode size))
unfolding negotiate_all
negotiate_options-parse_oack max_blksize limits req mode size lo r (fb, fw, ft) fits =
    let d = reads req mode size in
    let (gb, vb, eb, b) = blksize_answer req.has_blksize req.blksize max_blksize d lo refl refl in
    let db = record d {
      blksize = answer req.has_blksize gb blksize_name req.blksize vb;
      segsize = if gb then vb else segsize;
    } in
    let (gw, vw, ew, w) =
      windowsize_answer req.has_window req.window limits db (ground arith) refl in
    let dw = record db {
      windowsize = answer req.has_window gw windowsize_name req.window vw;
      window = if gw then vw else 1;
    } in
    let (gt, vt, sz, et, t) =
      tsize_answer mode req.has_tsize (size_or_zero req.tsize) dw refl refl ft fits in
    let dt = record dw {
      tsize = answer req.has_tsize gt tsize_name (size_or_zero req.tsize) vt;
      tsize_size = sz;
    } in
    let last = record dt { rollover_val = 0 } in
    let all : negotiate_all max_blksize limits d ≡ last =
      ap (λ x. finish (negotiate_tsize (negotiate_windowsize limits x))) eb
      ∙ ap (λ x. finish (negotiate_tsize x)) ew
      ∙ ap finish et
      ∙ rest_untouched dt refl refl refl refl in
    let agreed : Agree req
        (negotiate_all max_blksize limits d, build_oack (negotiate_all max_blksize limits d)) =
      subst (λ e. Agree req (e, build_oack e)) (sym all)
        (build_oack-Agree req gb gt gw vb vt vw last b t w (fb, fw, ft) refl refl refl) in
    subst (Agree req) (sym (accepted max_blksize limits d r)) agreed
