-- ===== src/Tests/Files.antt =====
-- Files that a user sends and fetches.
use network_tftp_tftp_hpa.Prelude.{
  ℕ, ◌≡◌, ◌≢◌, ◌⊎◌, ◌↔◌, refl, Bool, true, false, Option, none, some, List, [], ◌∷◌, ◌++◌, map,
}
use network_tftp_tftp_hpa.Text.Codes.{codes}
use network_tftp_tftp_hpa.Commands.Files.{Server, Looked, found, Call, Client, tail, at_colon, mput}
use network_tftp_tftp_hpa.Commands.Files.Get.{get}
use network_tftp_tftp_hpa.Commands.Files.Sent.{call_to, Succeeded, CanOpen, mput_complete}

abbrev server : Server
server = record { connected = true; host = codes "h"; port = codes "tftp" }

abbrev client : Client
client = record { serv = server; calls = [] }

abbrev any_host : (host port : List ℕ) → Looked
any_host host port = found

abbrev readable : List ℕ → Bool
readable file = true

abbrev all_well : List Call → Option ℕ
all_well calls = some 0

tail_of_directory : tail (codes "a/b//") ≡ (codes "a/b", codes "b")
unfolding tail
tail_of_directory = refl

-- A second remote file with a host: its host becomes the name of a local file.
get_overwrites :
    (get any_host readable all_well false none
      (codes "get" ∷ codes "h:a" ∷ codes "h:d/" ∷ [])
      client).1.calls
    ≡ record { server = server; local = codes "a"; remote = codes "a" }
      ∷ record { server = server; local = codes "h"; remote = codes "d/" }
      ∷ []
unfolding get
get_overwrites = refl

abbrev wanted : List Call
wanted = map (call_to server (codes "d")) (codes "x/a" ∷ [])

mput_complete_example :
    ((mput any_host readable all_well false none
          (codes "mput" ∷ codes "x/a" ∷ codes "d" ∷ [])
          client).0
        ≡ some 0
      ↔ (CanOpen any_host readable all_well false (codes "x/a" ∷ [])
          × Succeeded any_host readable all_well false [] wanted))
    × (((mput any_host readable all_well false none
            (codes "mput" ∷ codes "x/a" ∷ codes "d" ∷ [])
            client).0
          ≢ some 0)
        ⊎ ((mput any_host readable all_well false none
              (codes "mput" ∷ codes "x/a" ∷ codes "d" ∷ [])
              client).1
            ≡ record client { calls = [] ++ wanted }))
unfolding at_colon
mput_complete_example =
    mput_complete any_host readable all_well false none (codes "mput") (codes "x/a") (codes "d") []
      client refl refl
