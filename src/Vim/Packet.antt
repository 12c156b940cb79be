-- ===== src/Vim/Packet.antt =====
-- backend/VIM-MESSAGE/src/VIMPacket.cpp and include/VIMPacket.hpp: the packets of the messenger and
-- their bytes. `printPacket` only prints.
pub mod RoundTrip
pub mod Canonical
use full_stack_shinfeld.Common.{
  ℕ, ◌+◌, ◌++◌, ◌≤◌, Bool, ◌||◌, not, List, [], ◌∷◌, Option, none, some, leb, ltb, ◌==◌, length,
  get_or, drop, if◌then◌else◌,
}
use full_stack_shinfeld.Common.Bits.{u8, u16, u32}
use full_stack_shinfeld.Bytes.{append_bits, read_16, read_32}

pub record VimPacket : Type 0 where
  pub type : ℕ
  pub user_id : ℕ
  pub msg_id : ℕ
  pub ip : ℕ
  pub port : ℕ
  pub msg_data : List ℕ

abbrev pub header_size : ℕ
header_size = 7

abbrev pub user_confirmation_size : ℕ
user_confirmation_size = 11

-- The three constructors; what they do not set is 0 or empty.
unfoldable pub message_packet : ℕ → ℕ → ℕ → List ℕ → VimPacket
message_packet type user_id msg_id msg_data = record {
  type = type;
  user_id = user_id;
  msg_id = msg_id;
  ip = 0;
  port = 0;
  msg_data = msg_data;
}

unfoldable pub creation_packet : ℕ → ℕ → ℕ → VimPacket
creation_packet type ip port = record {
  type = type;
  user_id = 0;
  msg_id = 0;
  ip = ip;
  port = port;
  msg_data = [];
}

unfoldable pub confirmation_packet : ℕ → ℕ → ℕ → ℕ → VimPacket
confirmation_packet type ip port user_id = record {
  type = type;
  user_id = user_id;
  msg_id = 0;
  ip = ip;
  port = port;
  msg_data = [];
}

-- The three overloads of `createPacket`.
unfoldable pub create_message : ℕ → ℕ → ℕ → List ℕ → List ℕ
unfolding append_bits
create_message type user_id msg_id msg_data =
    let packet1 = type ∷ [] in
    let packet2 = append_bits 4 packet1 user_id in
    let packet3 = append_bits 2 packet2 msg_id in packet3 ++ msg_data

unfoldable pub create_creation : ℕ → ℕ → ℕ → List ℕ
unfolding append_bits
create_creation type ip port =
    let packet1 = type ∷ [] in let packet2 = append_bits 4 packet1 ip in append_bits 2 packet2 port

unfoldable pub create_confirmation : ℕ → ℕ → ℕ → ℕ → List ℕ
unfolding append_bits
create_confirmation type ip port user_id =
    let packet1 = type ∷ [] in
    let packet2 = append_bits 4 packet1 ip in
    let packet3 = append_bits 2 packet2 port in append_bits 4 packet3 user_id

unfoldable pub decode_msg_packet : List ℕ → Option VimPacket
unfolding read_16 read_32 message_packet
decode_msg_packet packet =
    if leb (length packet) header_size
    then none
    else some (
        message_packet (get_or packet 0 0) (u32 (read_32 packet 1)) (u16 (read_16 packet 5))
          (drop 7 packet))

unfoldable pub decode_user_creation : List ℕ → Option VimPacket
unfolding read_16 read_32 creation_packet
decode_user_creation packet =
    if not (length packet == header_size)
    then none
    else some
        (creation_packet (get_or packet 0 0) (u32 (read_32 packet 1)) (u16 (read_16 packet 5)))

unfoldable pub decode_user_confirmation : List ℕ → Option VimPacket
unfolding read_16 read_32 confirmation_packet
decode_user_confirmation packet =
    if not (length packet == user_confirmation_size)
    then none
    else some (
        confirmation_packet (get_or packet 0 0) (u32 (read_32 packet 1)) (u16 (read_16 packet 5))
          (u32 (read_32 packet 7)))

unfoldable pub decode_packet : List ℕ → Option VimPacket
decode_packet packet =
    if leb (length packet) 0
    then none
    else let type = get_or packet 0 0 in
      if type == 1 || type == 2
      then decode_msg_packet packet
      else if type == 3
      then decode_user_creation packet
      else if type == 4
      then decode_user_confirmation packet
      else none
