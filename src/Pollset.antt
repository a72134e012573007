-- ===== src/Pollset.antt =====
-- common/pollset.c as it is built with poll(): a sorted array of descriptors.
pub mod Find
pub mod Move
pub mod Add
pub mod Next
use Prim.Native.Nat.{bit_and}
use network_tftp_tftp_hpa.Prelude.{
  ℕ, zero, suc, ◌+◌, ◌-◌, ◌*◌, ◌/◌, ◌≤◌, ◌<◌, ◌≡◌, Bool, true, false, Option, none, some, List, [],
  ◌∷◌, ◌++◌, ltb, leb, ◌==◌, if◌then◌else◌, length, get_or, set, replicate,
}

-- struct pollfd. The field fd is none for the -1 of memset().
pub record Pollfd : Type 0 where
  pub fd : Option ℕ
  pub events : ℕ
  pub revents : ℕ

-- struct pollset: `fds` is the whole allocation.
pub record Pollset : Type 0 where
  pub fds : List Pollfd
  pub nfds : ℕ
  pub size : ℕ

-- memset(..., -1, ...): all bits of the short fields are set.
abbrev pub unused : Pollfd
unused = record { fd = none; events = 65535; revents = 65535 }

unfoldable pub pollset_new : Pollset
pollset_new = record { fds = replicate 8 unused; nfds = 0; size = 8 }

-- A descriptor as a number that orders as the source's int does, -1 being the least one here.
abbrev pub rank : Option ℕ → ℕ
rank none = 0
rank (some n) = suc n

abbrev pub rank_at : List Pollfd → ℕ → ℕ
rank_at fds i = rank (get_or fds i unused).fd

-- struct pollset_found
pub record Found : Type 0 where
  pub found : Bool
  pub i : ℕ

-- The loop of pollset_find.
unfoldable pub find_between : (fuel : ℕ) → List Pollfd → (fd l h : ℕ) → Found
find_between zero fds fd l h = record { found = false; i = l }
find_between (suc fuel) fds fd l h =
    let i = (l + h) / 2 in
    let right = find_between fuel fds fd (i + 1) h in
    let left = find_between fuel fds fd l i in
    let round =
      if ltb (rank_at fds i) (suc fd)
      then right
      else if rank_at fds i == suc fd
      then record { found = true; i = i }
      else left in
    if ltb l h then round else record { found = false; i = l }

-- pollset_find: a round more than there are descriptors is enough.
unfoldable pub pollset_find : Pollset → ℕ → Found
unfolding find_between
pollset_find s fd = find_between (suc s.nfds) s.fds fd 0 s.nfds

-- n elements from the head of the list on, each a place up behind `carried`.
unfoldable pub shifted : (n : ℕ) → (carried : Pollfd) → List Pollfd → List Pollfd
shifted zero carried xs = xs
shifted (suc n) carried [] = []
shifted (suc n) carried (x ∷ xs) = carried ∷ shifted n x xs

-- memmove(&fds[i + 1], &fds[i], n * sizeof(*fds))
unfoldable pub move_up : (i n : ℕ) → List Pollfd → List Pollfd
unfolding shifted
move_up i n [] = []
move_up zero n (x ∷ xs) = x ∷ shifted n x xs
move_up (suc i) n (x ∷ xs) = x ∷ move_up i n xs

-- The set with room for one more.
unfoldable pub grown : Pollset → Pollset
grown s =
    if leb s.size s.nfds
    then record s { fds = s.fds ++ replicate (s.size * 2 - s.size) unused; size = s.size * 2 }
    else s

-- pollset_add from the insertion on.
unfoldable pub insert_at : (i fd : ℕ) → Pollset → Pollset
unfolding move_up
insert_at i fd s =
    let fds = if ltb i s.nfds then move_up i (s.nfds - i) s.fds else s.fds in
    record s { fds = set fds i (record (get_or fds i unused) { fd = some fd }); nfds = s.nfds + 1 }

-- pollset_add; a descriptor below 0 is none, as is a set that is NULL.
unfoldable pub pollset_add : Option Pollset → Option ℕ → Pollset
unfolding pollset_find grown insert_at pollset_new
pollset_add maybe none = elim maybe [ none ↦ pollset_new | some s ↦ s ]
pollset_add maybe (some fd) =
    let s : Pollset = elim maybe [ none ↦ pollset_new | some t ↦ t ] in
    let f = pollset_find s fd in if f.found then s else insert_at f.i fd (grown s)

unfoldable pub pollset_has : Pollset → ℕ → Bool
unfolding pollset_find
pollset_has s fd = (pollset_find s fd).found

-- The loop of pollset_next from the cursor i on, `left` elements from the end: the descriptor that
-- is returned, the cursor behind it, and its flags. `what` is none if whatp is NULL.
unfoldable pub next_from :
    (left : ℕ) → List Pollfd → (what : Option ℕ) → (i : ℕ) → Option (Option ℕ × ℕ × ℕ)
next_from zero fds what i = none
next_from (suc left) fds what i =
    let later = next_from left fds what (i + 1) in
    let flags : ℕ = elim what [ none ↦ 0 | some w ↦ bit_and w (get_or fds i unused).revents ] in
    let here = some ((get_or fds i unused).fd, i + 1, flags) in
    elim what [ none ↦ here | some w ↦ if flags == 0 then later else here ]

-- pollset_next: none for -1, when the cursor is set to nfds.
unfoldable pub pollset_next : Pollset → (cursor : ℕ) → (what : Option ℕ) → Option (Option ℕ × ℕ × ℕ)
unfolding next_from
pollset_next s cursor what = next_from (s.nfds - cursor) s.fds what cursor
