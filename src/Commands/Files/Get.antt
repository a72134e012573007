-- ===== src/Commands/Files/Get.antt =====
-- tftp/main.c: getfiles(), get and mget.
use network_tftp_tftp_hpa.Prelude.{
  ℕ, Bool, not, ◌&&◌, ◌||◌, Option, none, some, List, [], ◌∷◌, ◌++◌, ◌==◌, if◌then◌else◌,
}
use network_tftp_tftp_hpa.Text.Codes.{codes}
use network_tftp_tftp_hpa.Commands.Modes.{ex_usage, more_args}
use network_tftp_tftp_hpa.Commands.Files.{
  Client, Call, Looked, tail, is_directory, at_colon, all_colon, set_transfer_host, ex_nohost,
  ex_oserr, transfer_file, split_last,
}

-- How many arguments there are: one, two of which this is the second as it is now, or a loop over
-- all, with a local directory or without.
pub data Shape : Type 0 where
  alone : Shape
  beside : (second : List ℕ) → Shape
  several : (local_directory : Option (List ℕ)) → Shape

-- The second argument when the round over it has put a NUL behind its host.
abbrev pub cut : (more : List (List ℕ)) → (host : List ℕ) → Shape → Shape
cut [] host (beside second) = beside host
cut _ _ shape = shape

-- The local file of a call of several, from the base of the remote one.
abbrev pub local_name : Option (List ℕ) → (base : List ℕ) → List ℕ
local_name none base = base
local_name (some directory) base = directory ++ b'/' ∷ base

module _ (look_up : (host port : List ℕ) → Looked) (can_open : List ℕ → Bool)
    (transfer : List Call → Option ℕ) (literal : Bool) where
  -- The last round: its code is that of getfiles.
  abbrev pub get_one : (local remote : List ℕ) → Client → Option ℕ × Client
  get_one local remote c =
      if can_open local
      then transfer_file look_up can_open transfer literal local remote c
      else (some ex_oserr, c)

  -- The loop of getfiles.
  unfoldable pub get_each : Shape → (names : List (List ℕ)) → (err : ℕ) → Client → Option ℕ × Client
  unfolding tail is_directory at_colon set_transfer_host
  get_each shape [] err c = (some err, c)
  get_each shape (name ∷ names) err c =
      let each : Shape → (src : List ℕ) → Client → Option ℕ × Client = λ now src client.
        let (remote, base) = tail src in
        let many : Option (List ℕ) → Option ℕ × Client = λ directory.
          let local = local_name directory base in
          let (result, after) =
            transfer_file look_up can_open transfer literal local remote client in
          let skipped = get_each now names (if err == 0 then ex_oserr else err) client in
          let got : Option ℕ × Client = elim result [
            | none ↦ (none, after)
            | some code ↦ get_each now names (if err == 0 then code else err) after
          ] in
          if can_open local then got else skipped in
        elim now [
          | alone ↦ get_one base remote client
          | beside second ↦ if is_directory second then many none else get_one second src client
          | several directory ↦ many directory
        ] in
      let plain = each shape name c in
      elim (at_colon name) [
        | none ↦ plain
        | some (host, src) ↦
            let (failed, serv) =
              set_transfer_host look_up can_open transfer literal host none c.serv in
            let client : Client = record c { serv = serv } in
            let now = cut names host shape in
            let unknown = get_each now names (if err == 0 then ex_nohost else err) client in
            let there = each now src client in
            if literal then plain else if failed == 0 then there else unknown
      ]

  -- getfiles from the test of serv.connected on.
  unfoldable pub get_from : Shape → (names : List (List ℕ)) → Client → Option ℕ × Client
  unfolding at_colon get_each
  get_from shape names c =
      if not c.serv.connected && (literal || not (all_colon names))
      then (some ex_usage, c)
      else get_each shape names 0 c

  -- getfiles without a local directory: get.
  unfoldable pub get :
      (line : Option (List ℕ)) → (argv : List (List ℕ)) → Client → Option ℕ × Client
  unfolding get_from
  get line argv c = elim (more_args (codes "get ") line argv) [
    | some (cmd ∷ name ∷ []) ↦ get_from alone (name ∷ []) c
    | some (cmd ∷ name ∷ second ∷ []) ↦ get_from (beside second) (name ∷ second ∷ []) c
    | some (cmd ∷ name ∷ second ∷ third ∷ more) ↦
        get_from (several none) (name ∷ second ∷ third ∷ more) c
    | _ ↦ (some ex_usage, c)
  ]

  -- mget: getfiles with the last argument as the local directory.
  unfoldable pub mget : (argv : List (List ℕ)) → Client → Option ℕ × Client
  unfolding get_from
  mget (cmd ∷ name ∷ next ∷ more) c =
      let (names, directory) = split_last name (next ∷ more) in
      get_from (several (some directory)) names c
  mget argv c = (some ex_usage, c)
