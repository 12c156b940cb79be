-- ===== src/Vim/Packet/Canonical.antt =====
-- A packet that is accepted is the one that `createPacket` makes of what was decoded.
use full_stack_shinfeld.Common.{
  ℕ, ◌+◌, ◌*◌, ◌^◌, ◌<◌, ◌≡◌, List, [], ◌∷◌, arith, some, Option, get_or, bit_or, ◌==◌,
  if◌then◌else◌,
}
use full_stack_shinfeld.Common.Bits.{u8, u16, u32, ◌>>◌, ◌<<◌}
use full_stack_shinfeld.Bytes.{IsBytes}
use full_stack_shinfeld.Bytes.Laws.{or_16, or_32}
use full_stack_shinfeld.Vim.Packet.{
  VimPacket, create_message, create_creation, create_confirmation, decode_packet, decode_msg_packet,
  decode_user_creation, decode_user_confirmation,
}

module _ (a b c d : ℕ) (ha : a < 256) (hb : b < 256) (hc : c < 256) (hd : d < 256) where
  abbrev word_32 : ℕ
  word_32 = u32 (bit_or (bit_or (bit_or (a << 24) (b << 16)) (c << 8)) d)

  word_32-eq : word_32 ≡ a * 2 ^ 24 + b * 2 ^ 16 + c * 2 ^ 8 + d
  word_32-eq = rw (or_32 a b c d hb hc hd) (omega arith)

  bytes_of_32 :
      (u8 (word_32 >> 24) ≡ a)
      × (u8 (word_32 >> 16) ≡ b)
      × (u8 (word_32 >> 8) ≡ c)
      × (u8 (word_32 >> 0) ≡ d)
  bytes_of_32 = omega (arith, word_32-eq)

module _ (a b : ℕ) (ha : a < 256) (hb : b < 256) where
  abbrev word_16 : ℕ
  word_16 = u16 (bit_or (a << 8) b)

  word_16-eq : word_16 ≡ a * 256 + b
  word_16-eq = rw (or_16 a b hb) (omega arith)

  bytes_of_16 : (u8 (word_16 >> 8) ≡ a) × (u8 (word_16 >> 0) ≡ b)
  bytes_of_16 = omega (arith, word_16-eq)

-- The bytes that `createPacket` makes for a decoded packet, by its type.
pub create_packet : VimPacket → List ℕ
create_packet q =
    if q.type == 3
    then create_creation q.type q.ip q.port
    else if q.type == 4
    then create_confirmation q.type q.ip q.port q.user_id
    else create_message q.type q.user_id q.msg_id q.msg_data

-- A decoder gives back the packet's bytes, and keeps its type.
abbrev Keeps : List ℕ → Option VimPacket → (VimPacket → List ℕ) → Type 0
Keeps p r create = (q : VimPacket) → r ≡ some q → (create q ≡ p) × (q.type ≡ get_or p 0 0)

decode_msg_packet-Keeps :
    (p : List ℕ)
    → IsBytes p
    → Keeps p (decode_msg_packet p) (λ q. create_message q.type q.user_id q.msg_id q.msg_data)
unfolding decode_msg_packet create_message
decode_msg_packet-Keeps (t ∷ a ∷ b ∷ c ∷ d ∷ e ∷ f ∷ rest) h q dec = ground (
  arith,
  bytes_of_32 a b c d (omega (arith, h)) (omega (arith, h)) (omega (arith, h)) (omega (arith, h)),
  bytes_of_16 e f (omega (arith, h)) (omega (arith, h)),
)
decode_msg_packet-Keeps _ h q dec = ground arith

decode_user_creation-Keeps :
    (p : List ℕ)
    → IsBytes p
    → Keeps p (decode_user_creation p) (λ q. create_creation q.type q.ip q.port)
unfolding decode_user_creation create_creation
decode_user_creation-Keeps (t ∷ a ∷ b ∷ c ∷ d ∷ e ∷ f ∷ []) h q dec = ground (
  arith,
  bytes_of_32 a b c d (omega (arith, h)) (omega (arith, h)) (omega (arith, h)) (omega (arith, h)),
  bytes_of_16 e f (omega (arith, h)) (omega (arith, h)),
)
decode_user_creation-Keeps _ h q dec = ground arith

decode_user_confirmation-Keeps :
    (p : List ℕ)
    → IsBytes p
    → Keeps p (decode_user_confirmation p) (λ q. create_confirmation q.type q.ip q.port q.user_id)
unfolding decode_user_confirmation create_confirmation
decode_user_confirmation-Keeps (t ∷ a ∷ b ∷ c ∷ d ∷ e ∷ f ∷ i ∷ j ∷ k ∷ l ∷ []) h q dec = ground (
  arith,
  bytes_of_32 a b c d (omega (arith, h)) (omega (arith, h)) (omega (arith, h)) (omega (arith, h)),
  bytes_of_16 e f (omega (arith, h)) (omega (arith, h)),
  bytes_of_32 i j k l (omega (arith, h)) (omega (arith, h)) (omega (arith, h)) (omega (arith, h)),
)
decode_user_confirmation-Keeps _ h q dec = ground arith

-- Every packet of bytes that is accepted is, byte for byte, what `createPacket` makes from the type
-- and the fields that were decoded: no two packets decode alike.
pub create_packet-decode_packet :
    (p : List ℕ) (q : VimPacket) → IsBytes p → decode_packet p ≡ some q → create_packet q ≡ p
unfolding create_packet decode_packet
create_packet-decode_packet p q h dec = ground (
  arith,
  decode_msg_packet-Keeps p h q,
  decode_user_creation-Keeps p h q,
  decode_user_confirmation-Keeps p h q,
)
