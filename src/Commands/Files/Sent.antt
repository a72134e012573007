-- ===== src/Commands/Files/Sent.antt =====
-- put_each: which files an mput has sent.
use network_tftp_tftp_hpa.Prelude.{
  ℕ, zero, suc, ◌≡◌, ◌≢◌, ◌↔◌, ◌⊎◌, refl, sym, ap, subst, ◌∙◌, Bool, true, false, Option, none,
  some, List, [], ◌∷◌, ◌++◌, append_assoc, append-nil, map, All, arith, if◌then◌else◌, ◌==◌,
  Bool-cases, Option-cases, inl, inr,
}
use network_tftp_tftp_hpa.Commands.Files.{
  Client, Call, Server, Looked, tail, at_colon, put_each, put_to, putfiles, mput, split_last,
  ex_oserr,
}

some_zero : (o : Option ℕ) → (o ≡ some 0) ⊎ (o ≢ some 0)
some_zero none = inr (λ e. cc)
some_zero (some zero) = inl refl
some_zero (some (suc n)) = inr (λ e. cc)

-- The call for a file of the loop.
abbrev pub call_to : Server → (targ file : List ℕ) → Call
call_to serv targ file = record {
  server = serv;
  local = (tail file).0;
  remote = targ ++ b'/' ∷ (tail file).1;
}

module _ (look_up : (host port : List ℕ) → Looked) (can_open : List ℕ → Bool)
    (transfer : List Call → Option ℕ) (literal : Bool) where
  -- Calls, each of which gives 0; `before` are the earlier ones.
  abbrev pub Succeeded : (before : List Call) → List Call → Type 0
  Succeeded before [] = Unit
  Succeeded before (x ∷ xs) =
      (transfer (before ++ x ∷ []) ≡ some 0) × Succeeded (before ++ x ∷ []) xs

  abbrev pub CanOpen : List (List ℕ) → Type 0
  CanOpen = All (λ f. can_open (tail f).0 ≡ true)

  module _ (targ file : List ℕ) (files : List (List ℕ)) (err : ℕ) (c : Client) where
    put_each-closed :
        can_open (tail file).0 ≡ false
        → put_each look_up can_open transfer literal targ (file ∷ files) err c
          ≡ put_each look_up can_open transfer literal targ files
              (if err == 0 then ex_oserr else err)
              c
    unfolding put_each
    put_each-closed e = rw e refl

    put_each-left :
        can_open (tail file).0 ≡ true
        → transfer (c.calls ++ call_to c.serv targ file ∷ []) ≡ none
        → (put_each look_up can_open transfer literal targ (file ∷ files) err c).0 ≡ none
    unfolding put_each
    put_each-left e t = rw (e, t) refl

    put_each-code :
        {code : ℕ}
        → can_open (tail file).0 ≡ true
        → transfer (c.calls ++ call_to c.serv targ file ∷ []) ≡ some code
        → put_each look_up can_open transfer literal targ (file ∷ files) err c
          ≡ put_each look_up can_open transfer literal targ files
              (if err == 0 then code else err)
              (record c { calls = c.calls ++ call_to c.serv targ file ∷ [] })
    unfolding put_each
    put_each-code e t = rw (e, t) refl

  -- Once there is an error, the loop does not return 0.
  put_each-error :
      (targ : List ℕ) (files : List (List ℕ)) (err : ℕ) (c : Client)
      → err ≢ 0
      → (put_each look_up can_open transfer literal targ files err c).0 ≢ some 0
  put_each-error targ [] err c n e = absurd (n (unfold put_each in cc))
  put_each-error targ (file ∷ files) err c n e = elim (Bool-cases (can_open (tail file).0)) [
    | inr shut ↦
        let step = put_each-closed targ file files err c shut in
        let kept : (if err == 0 then ex_oserr else err) ≡ err = ground arith in
        put_each-error targ files err c n (
          subst (λ x. x ≡ some 0)
            (ap (λ x. x.0) step
              ∙ ap (λ v. (put_each look_up can_open transfer literal targ files v c).0) kept)
            e)
    | inl opened ↦ elim (Option-cases (transfer (c.calls ++ call_to c.serv targ file ∷ []))) [
      | inl gone ↦ let step = put_each-left targ file files err c opened gone in absurd (cc)
      | inr (code, back) ↦
          let step = put_each-code targ file files err c opened back in
          let kept : (if err == 0 then code else err) ≡ err = ground arith in
          put_each-error targ files err
            (record c { calls = c.calls ++ call_to c.serv targ file ∷ [] }) n
            (subst (λ x. x ≡ some 0)
              (ap (λ x. x.0) step
                ∙ ap
                    (λ v.
                      (put_each look_up can_open transfer literal targ files v
                        (record c { calls = c.calls ++ call_to c.serv targ file ∷ [] })).0)
                    kept)
              e)
    ]
  ]

  put_each_sound :
      (targ : List ℕ) (files : List (List ℕ)) (c : Client)
      → (put_each look_up can_open transfer literal targ files 0 c).0 ≡ some 0
      → CanOpen files × Succeeded c.calls (map (call_to c.serv targ) files)
  put_each_sound targ [] c e = (tt, tt)
  put_each_sound targ (file ∷ files) c e = elim (Bool-cases (can_open (tail file).0)) [
    | inr shut ↦
        let step = put_each-closed targ file files 0 c shut in
        absurd
          (put_each-error targ files ex_oserr c (λ z. omega arith) (sym (ap (λ x. x.0) step) ∙ e))
    | inl opened ↦ elim (Option-cases (transfer (c.calls ++ call_to c.serv targ file ∷ []))) [
      | inl gone ↦ let step = put_each-left targ file files 0 c opened gone in absurd (cc)
      | inr (zero, back) ↦
          let step = put_each-code targ file files 0 c opened back in
          let (open_rest, rest) =
            put_each_sound targ files
              (record c { calls = c.calls ++ call_to c.serv targ file ∷ [] })
              (sym (ap (λ x. x.0) step) ∙ e) in
          ((opened, open_rest), (back, rest))
      | inr (suc n, back) ↦
          let step = put_each-code targ file files 0 c opened back in
          absurd (
            put_each-error targ files (suc n)
              (record c { calls = c.calls ++ call_to c.serv targ file ∷ [] }) (λ z. omega arith)
              (sym (ap (λ x. x.0) step) ∙ e))
    ]
  ]

  put_each_complete :
      (targ : List ℕ) (files : List (List ℕ)) (c : Client)
      → CanOpen files
      → Succeeded c.calls (map (call_to c.serv targ) files)
      → ((put_each look_up can_open transfer literal targ files 0 c).0 ≡ some 0)
        × ((put_each look_up can_open transfer literal targ files 0 c).1
            ≡ record c { calls = c.calls ++ map (call_to c.serv targ) files })
  put_each_complete targ [] c o s =
      unfold put_each in (refl, ap (λ l. record c { calls = l }) (sym (append-nil c.calls)))
  put_each_complete targ (file ∷ files) c o s =
      let step = put_each-code targ file files 0 c o.0 s.0 in
      let (code, after) =
        put_each_complete targ files (record c { calls = c.calls ++ call_to c.serv targ file ∷ [] })
          o.1 s.1 in
      (
        ap (λ x. x.0) step ∙ code,
        ap (λ x. x.1) step
            ∙ after
            ∙ ap (λ l. record c { calls = l })
                (append_assoc c.calls (call_to c.serv targ file ∷ [])
                  (map (call_to c.serv targ) files)),
      )

  put_to-put_each :
      (targ : List ℕ) (files : List (List ℕ)) (c : Client)
      → c.serv.connected ≡ true
      → put_to look_up can_open transfer literal true targ files c
        ≡ put_each look_up can_open transfer literal targ files 0 c
  unfolding put_to put_each
  put_to-put_each targ files c on = rw (on, put_to) refl

  -- A target without a colon is a file of the server that is set.
  mput-put_each :
      (line : Option (List ℕ)) (cmd file next : List ℕ) (more : List (List ℕ)) (c : Client)
      → c.serv.connected ≡ true
      → at_colon (split_last file (next ∷ more)).1 ≡ none
      → mput look_up can_open transfer literal line (cmd ∷ file ∷ next ∷ more) c
        ≡ put_each look_up can_open transfer literal
            (split_last file (next ∷ more)).1
            (split_last file (next ∷ more)).0
            0
            c
  unfolding mput putfiles
  mput-put_each line cmd file next more c on plain =
      let here : at_colon (split_last next more).1 ≡ none = plain in
      rw (here, mput, putfiles)
        (put_to-put_each (split_last file (next ∷ more)).1 (split_last file (next ∷ more)).0 c on)

  -- mput with a server, a first file, and more arguments the last of which, the target, has no colon:
  -- it returns 0 exactly if every file before the target can be opened and every transfer of one of
  -- them to its base name behind the target and a slash returns 0; and then these are the transfers
  -- that it has made, in their order.
  pub mput_complete :
      (line : Option (List ℕ)) (cmd file next : List ℕ) (more : List (List ℕ)) (c : Client)
      → c.serv.connected ≡ true
      → at_colon (split_last file (next ∷ more)).1 ≡ none
      → let (files, targ) = split_last file (next ∷ more) in
        let (result, after) =
          mput look_up can_open transfer literal line (cmd ∷ file ∷ next ∷ more) c in
        let wanted = map (call_to c.serv targ) files in
        ((result ≡ some 0) ↔ (CanOpen files × Succeeded c.calls wanted))
        × ((result ≢ some 0) ⊎ (after ≡ record c { calls = c.calls ++ wanted }))
  mput_complete line cmd file next more c on plain =
      let (files, targ) = split_last file (next ∷ more) in
      let step = mput-put_each line cmd file next more c on plain in
      let sound : (mput look_up can_open transfer literal line (cmd ∷ file ∷ next ∷ more) c).0
            ≡ some 0
          → CanOpen files × Succeeded c.calls (map (call_to c.serv targ) files) =
        λ e. put_each_sound targ files c (sym (ap (λ x. x.0) step) ∙ e) in
      (
        (sound, λ h. ap (λ x. x.0) step ∙ (put_each_complete targ files c h.0 h.1).0),
        elim (some_zero
            (mput look_up can_open transfer literal line (cmd ∷ file ∷ next ∷ more) c).0) [
              | inl done ↦ inr (
                  ap (λ x. x.1) step
                  ∙ (put_each_complete targ files c (sound done).0 (sound done).1).1)
              | inr other ↦ inl other
            ],
      )
