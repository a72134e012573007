-- ===== src/Tests/Polls.antt =====
-- Poll sets at concrete descriptors.
use network_tftp_tftp_hpa.Prelude.{ℕ, ◌≡◌, ◌↔◌, ◌⊎◌, refl, true, some, [], ◌∷◌}
use network_tftp_tftp_hpa.Pollset.{Pollset, pollset_new, pollset_add, pollset_has, pollset_next}
use network_tftp_tftp_hpa.Pollset.Find.{IsValid}
use network_tftp_tftp_hpa.Pollset.Add.{pollset_new-IsValid, pollset_has-pollset_add}

pollset_has-pollset_add_example :
    IsValid (pollset_add (some pollset_new) (some 5))
    × ((x : ℕ)
        → (pollset_has (pollset_add (some pollset_new) (some 5)) x ≡ true)
          ↔ ((x ≡ 5) ⊎ (pollset_has pollset_new x ≡ true)))
pollset_has-pollset_add_example = pollset_has-pollset_add pollset_new 5 pollset_new-IsValid

-- Two descriptors, of which the second is ready.
abbrev two : Pollset
two = record {
  fds =
      record { fd = some 3; events = 1; revents = 0 }
      ∷ record { fd = some 7; events = 1; revents = 1 }
      ∷ [];
  nfds = 2;
  size = 2;
}

pollset_next-two : pollset_next two 0 (some 1) ≡ some (some 7, 2, 1)
unfolding pollset_next
pollset_next-two = refl

-- The order of the calls does not show in the order of the array.
pollset_add-nine :
    pollset_has (pollset_add (some (pollset_add (some two) (some 9))) (some 5)) 9 ≡ true
unfolding pollset_has pollset_add
pollset_add-nine = refl
