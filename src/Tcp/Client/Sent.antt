-- ===== src/Tcp/Client/Sent.antt =====
-- The message buffer, the queue of sent segments and the file of a client, in
-- backend/TCP/src/Client.cpp.
use full_stack_shinfeld.Common.{
  ℕ, ◌+◌, ◌-◌, ◌^◌, ◌++◌, Bool, true, false, not, List, [], ◌∷◌, Option, none, some, ltb, is_empty,
  is_some, if◌then◌else◌,
}
use full_stack_shinfeld.Common.Bits.{u16}
use full_stack_shinfeld.Tcp.MessageBuffer
use full_stack_shinfeld.Tcp.Segment.{Segment, header_size}
use full_stack_shinfeld.Tcp.SegmentInfo.{SegmentInfo, Store, deref}
use full_stack_shinfeld.Tcp.Client.{Client}

-- The uint16_t that a segment counts for in the total: the header and the data.
unfoldable pub sent_size : SegmentInfo → ℕ
sent_size info = u16 (header_size + u16 info.data_size)

-- `total -= size` on a uint16_t.
abbrev pub without : ℕ → ℕ → ℕ
without total size = u16 (total + 2 ^ 16 - size)

front_seq_num : Store → List ℕ → ℕ
front_seq_num store [] = 0
front_seq_num store (p ∷ rest) = (deref store p).sequence_number

front_time_sent : Store → List ℕ → ℕ
front_time_sent store [] = 0
front_time_sent store (p ∷ rest) = (deref store p).time_sent

-- `while (client.checkFront(ackNum));` over the queue and the total: each round takes one entry
-- off, so the queue bounds the rounds.
unfoldable pub acknowledge : Store → ℕ → List ℕ → ℕ → List ℕ × ℕ
acknowledge store ack_num [] total = ([], total)
acknowledge store ack_num (p ∷ rest) total =
    let behind = acknowledge store ack_num rest (without total (sent_size (deref store p))) in
    if ltb (deref store p).sequence_number ack_num then behind else (p ∷ rest, total)

module _ {D : Type 0} where
  unfoldable pub check_item_message_buffer : Client D → ℕ → Bool
  check_item_message_buffer c seq = is_some (MessageBuffer.find seq c.message_buffer)

  -- The segment and the client without it, or nothing.
  unfoldable pub pop_item_message_buffer : Client D → ℕ → Option (Segment × Client D)
  pop_item_message_buffer c seq = elim (MessageBuffer.find seq c.message_buffer) [
    | none ↦ none
    | some s ↦ some (s, record c { message_buffer = MessageBuffer.erase seq c.message_buffer })
  ]

  unfoldable pub set_item_message_buffer : Client D → ℕ → Segment → Client D
  set_item_message_buffer c seq s = record c {
    message_buffer = MessageBuffer.insert_or_assign seq s c.message_buffer;
  }

  unfoldable pub push_message : Store → Client D → ℕ → Client D
  push_message store c p = record c {
    messages_sent = c.messages_sent ++ p ∷ [];
    total_size_of_messages_sent = u16 (c.total_size_of_messages_sent + sent_size (deref store p));
  }

  pop_front : Store → Client D → List ℕ → Option (ℕ × Client D)
  pop_front store c [] = none
  pop_front store c (p ∷ rest) = some (
    p,
    record c {
      messages_sent = rest;
      total_size_of_messages_sent =
          without c.total_size_of_messages_sent (sent_size (deref store p));
    },
  )

  unfoldable pub pop_message : Store → Client D → Option (ℕ × Client D)
  unfolding pop_front
  pop_message store c = pop_front store c c.messages_sent

  copy_first : Store → Client D → List ℕ → Option (ℕ × Client D)
  copy_first store c [] = none
  copy_first store c (p ∷ rest) = some (
    p,
    record c {
      total_size_of_messages_sent = u16 (c.total_size_of_messages_sent + sent_size (deref store p));
    },
  )

  -- The front stays in the queue, and its size is added to the total.
  unfoldable pub copy_front : Store → Client D → Option (ℕ × Client D)
  unfolding copy_first
  copy_front store c = copy_first store c c.messages_sent

  unfoldable pub get_front_seq_num : Store → Client D → ℕ
  unfolding front_seq_num
  get_front_seq_num store c = front_seq_num store c.messages_sent

  unfoldable pub get_message_time_sent : Store → Client D → ℕ
  unfolding front_time_sent
  get_message_time_sent store c = front_time_sent store c.messages_sent

  unfoldable pub check_front_all : Store → Client D → ℕ → Client D
  check_front_all store c ack_num =
      let after = acknowledge store ack_num c.messages_sent c.total_size_of_messages_sent in
      record c { messages_sent = after.0; total_size_of_messages_sent = after.1 }

  unfoldable pub has_messages : Client D → Bool
  has_messages c = not (is_empty c.messages_sent)

  -- The bytes are appended to the file, which is opened first if it is not open.
  unfoldable pub write_file : Client D → List ℕ → Client D
  write_file c bytes = record c { file_is_open = true; file = c.file ++ bytes }

  unfoldable pub close_file : Client D → Client D
  close_file c = record c { file_is_open = false }
