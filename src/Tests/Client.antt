-- ===== src/Tests/Client.antt =====
-- The client's OACK and the numbers of a command line at concrete inputs.
use network_tftp_tftp_hpa.Prelude.{ℕ, ◌≡◌, refl, true, some, List, [], ◌∷◌}
use network_tftp_tftp_hpa.Packet.Opcode
use network_tftp_tftp_hpa.Arguments.{parse_uint}
use network_tftp_tftp_hpa.Client.{Optreq, optreq_init, parse_oack, Within, parse_oack-Within}

-- "2k"
abbrev two_k : List ℕ
two_k = b'2' ∷ b'k' ∷ []

two_k_is_2048 : parse_uint (some two_k) 0 65464 ≡ 2048
unfolding parse_uint
two_k_is_2048 = refl

-- windowsize=16 was asked for, and "WindowSize" comes back with 8.
abbrev asked_16 : Optreq
asked_16 = record optreq_init { window = 16; has_window = true }

abbrev answer_8 : List ℕ
answer_8 = b'W' ∷ b'i' ∷ b'n' ∷ b'd' ∷ b'o' ∷ b'w' ∷ b'S' ∷ b'i' ∷ b'z' ∷ b'e' ∷ 0 ∷ b'8' ∷ 0 ∷ []

parse_oack-Within_example : Within asked_16 (record asked_16 { window = 8 })
unfolding parse_oack
parse_oack-Within_example = parse_oack-Within asked_16 Opcode.oack answer_8 refl
