-- ===== src/Examples/Packets.antt =====
-- Packets of the message protocol at concrete inputs.
use mathlib.Core.Logic.{inl}
use full_stack_shinfeld.Common.{
  is_empty, if◌then◌else◌, ℕ, ◌≡◌, refl, List, [], ◌∷◌, some, none, arith,
}
use full_stack_shinfeld.Vim.Packet.{
  message_packet, creation_packet, confirmation_packet, create_message, create_creation,
  create_confirmation, decode_packet, decode_user_creation,
}
use full_stack_shinfeld.Vim.Packet.RoundTrip.{
  decode_packet-create_any_message, decode_packet-create_user,
}
use full_stack_shinfeld.Vim.Packet.Canonical.{create_packet, create_packet-decode_packet}

abbrev two_letters : List ℕ
two_letters = 104 ∷ 105 ∷ []

decode_packet-create_any_message_example :
    decode_packet (create_message 1 7 3 two_letters)
    ≡ (if is_empty two_letters then none else some (message_packet 1 7 3 two_letters))
decode_packet-create_any_message_example =
    decode_packet-create_any_message 1 7 3 two_letters (inl refl) (omega arith) (omega arith)

decode_packet-create_user_example :
    (decode_packet (create_creation 3 0x7f000001 8080) ≡ some (creation_packet 3 0x7f000001 8080))
    × (decode_packet (create_confirmation 4 0x7f000001 8080 12)
        ≡ some (confirmation_packet 4 0x7f000001 8080 12))
decode_packet-create_user_example =
    decode_packet-create_user 0x7f000001 8080 12 (omega arith) (omega arith) (omega arith)

-- The bytes of a request to create a user.
abbrev request : List ℕ
request = 3 ∷ 127 ∷ 0 ∷ 0 ∷ 1 ∷ 31 ∷ 144 ∷ []

request_decodes : decode_packet request ≡ some (creation_packet 3 0x7f000001 8080)
unfolding decode_packet decode_user_creation
request_decodes = refl

create_packet-decode_packet_example : create_packet (creation_packet 3 0x7f000001 8080) ≡ request
create_packet-decode_packet_example =
    create_packet-decode_packet request (creation_packet 3 0x7f000001 8080) (omega arith)
      request_decodes
