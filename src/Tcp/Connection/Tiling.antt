-- ===== src/Tcp/Connection/Tiling.antt =====
-- The segments that the loop of `Connection::sendMessages` cuts out of the send buffer.
use full_stack_shinfeld.Common.{
  ℕ, zero, suc, ◌+◌, ◌-◌, ◌^◌, ◌≤◌, ◌<◌, ◌≡◌, ◌⊎◌, inl, inr, refl, sym, ap, ◌∙◌, ◌++◌, ◌&&◌, Bool,
  true, false, List, [], ◌∷◌, some, ltb, lt→ltb, le→ltb, length, arith, append_assoc, append-nil,
}
use full_stack_shinfeld.Common.Bits.{u16, u32}
use full_stack_shinfeld.Tcp.ClientMap
use full_stack_shinfeld.Tcp.Segment.{header_size}
use full_stack_shinfeld.Tcp.Client.{Client}
use full_stack_shinfeld.Tcp.Connection.{Connection, Outgoing, max_data_size}
use full_stack_shinfeld.Tcp.Connection.Sending.{next_end, send_round, send_loop}
use full_stack_shinfeld.Tcp.Connection.Round.{IsRound, round_lem}

-- Where the loop stands: what the window leaves, the next byte, and its sequence number.
pub record Cursor : Type 0 where
  pub available : ℕ
  pub start : ℕ
  pub seq : ℕ

-- The cursor behind a segment that ends at `end`.
abbrev pub moved : Cursor → ℕ → Cursor
moved from end = record {
  available = from.available - (end - from.start + header_size);
  start = end;
  seq = u32 (from.seq + (end - from.start));
}

-- Segments that cover the bytes between two cursors: each starts where the one before it ends,
-- holds between 1 and 1000 bytes, has the sequence number of its first byte, and fits with its
-- header into what the window leaves.
unfoldable pub Tiles : Cursor → List Outgoing → Cursor → Type 0
Tiles from [] to = from ≡ to
Tiles from (e ∷ rest) to =
    (end : ℕ) × (e.segment.start ≡ some from.start)
    × (e.segment.end ≡ some end)
    × (e.segment.sequence_number ≡ from.seq)
    × (from.start < end)
    × (end ≤ from.start + max_data_size)
    × (end + header_size ≤ from.start + from.available)
    × Tiles (moved from end) rest to

next_end_bounds :
    (available start size : ℕ)
    → header_size < available
    → start < size
    → size < 2 ^ 32 - max_data_size
    → let end = next_end available start size in
      (start < end)
      × (end ≤ start + max_data_size)
      × (end ≤ size)
      × (end + header_size ≤ start + available)
unfolding next_end
next_end_bounds available start size h k l = omega arith

cursor_eq :
    {a a' s s' q q' : ℕ}
    → a ≡ a'
    → s ≡ s'
    → q ≡ q'
    → ◌≡◌ {A = Cursor}
        (record { available = a; start = s; seq = q })
        (record { available = a'; start = s'; seq = q' })
cursor_eq e f g = rw (e, f, g)

lt_or_le : (m n : ℕ) → (m < n) ⊎ (n ≤ m)
lt_or_le zero zero = inr (omega arith)
lt_or_le zero (suc n) = inl (omega arith)
lt_or_le (suc m) zero = inr (omega arith)
lt_or_le (suc m) (suc n) = elim (lt_or_le m n) [
  | inl h ↦ inl (omega arith)
  | inr h ↦ inr (omega arith)
]

-- The test of the loop fails where the window or the buffer is used up.
test_fails :
    (available start size : ℕ)
    → (available ≤ header_size) ⊎ (start ≡ size)
    → (ltb header_size available && ltb start size) ≡ false
test_fails available start size (inl h) = ground (arith, le→ltb header_size available h)
test_fails available start size (inr h) = ground (arith, le→ltb start size (omega arith))

module _ {D : Type 0} where
  loop_sends :
      (fuel : ℕ) (conn : Connection D) (client : Client D) (port available : ℕ) (sent_data : Bool)
      → ClientMap.find port conn.clients ≡ some client
      → header_size < available
      → client.last_byte_sent < length conn.send_buffer
      → let end = next_end available client.last_byte_sent (length conn.send_buffer) in
        send_loop (suc fuel) conn port available sent_data
        ≡ send_loop fuel
            (send_round conn port client end)
            port
            (u16
              (available + 2 ^ 16 - u16 (u16 (end + 2 ^ 32 - client.last_byte_sent) + header_size)))
            true
  unfolding send_loop
  loop_sends fuel conn client port available sent_data e room more = ground (
    arith,
    e,
    lt→ltb header_size available room,
    lt→ltb client.last_byte_sent (length conn.send_buffer) more,
  )

  loop_stops :
      (fuel : ℕ) (conn : Connection D) (client : Client D) (port available : ℕ) (sent_data : Bool)
      → ClientMap.find port conn.clients ≡ some client
      → (ltb header_size available && ltb client.last_byte_sent (length conn.send_buffer)) ≡ false
      → send_loop fuel conn port available sent_data ≡ (conn, sent_data)
  unfolding send_loop
  loop_stops zero conn client port available sent_data e stop = refl
  loop_stops (suc fuel) conn client port available sent_data e stop = ground (arith, e, stop)

-- What the loop leaves: segments that tile the buffer up to where the client stands.
pub record IsTiled {D : Type 0} (conn conn' : Connection D) (port : ℕ) (from : Cursor)
    : Type 0 where
  pub sent : List Outgoing
  pub to : Cursor
  pub after : Client D
  pub queued : conn'.sender_queue ≡ conn.sender_queue ++ sent
  pub tiles : Tiles from sent to
  pub found : ClientMap.find port conn'.clients ≡ some after
  pub at_start : after.last_byte_sent ≡ to.start
  pub at_seq : after.expected_sequence ≡ to.seq
  pub inside : to.start ≤ length conn.send_buffer
  pub stopped : (to.available ≤ header_size) ⊎ (to.start ≡ length conn.send_buffer)

abbrev pub cursor_of : {D : Type 0} → Client D → ℕ → Cursor
cursor_of client available = record {
  available = available;
  start = client.last_byte_sent;
  seq = client.expected_sequence;
}

module _ {D : Type 0} where
  nothing_sent :
      (conn : Connection D) (client : Client D) (port available : ℕ)
      → ClientMap.find port conn.clients ≡ some client
      → client.last_byte_sent ≤ length conn.send_buffer
      → (available ≤ header_size) ⊎ (client.last_byte_sent ≡ length conn.send_buffer)
      → IsTiled conn conn port (cursor_of client available)
  unfolding Tiles
  nothing_sent conn client port available e ahead stop = record {
    sent = [];
    to = cursor_of client available;
    after = client;
    queued = sym (append-nil _);
    tiles = refl;
    found = e;
    at_start = refl;
    at_seq = refl;
    inside = ahead;
    stopped = stop;
  }

  one_round :
      (conn mid last : Connection D) (client : Client D) (port available rest end : ℕ)
      (round : IsRound conn mid port client end)
      → available < 2 ^ 16
      → (client.last_byte_sent < end)
        × (end ≤ client.last_byte_sent + max_data_size)
        × (end ≤ length conn.send_buffer)
        × (end + header_size ≤ client.last_byte_sent + available)
      → length conn.send_buffer < 2 ^ 32 - max_data_size
      → rest
        ≡ u16 (available + 2 ^ 16 - u16 (u16 (end + 2 ^ 32 - client.last_byte_sent) + header_size))
      → IsTiled mid last port (cursor_of round.after rest)
      → IsTiled conn last port (cursor_of client available)
  unfolding Tiles
  one_round conn mid last client port available rest end round small bounds fits e behind = record {
    sent = round.sent ∷ behind.sent;
    to = behind.to;
    after = behind.after;
    queued =
        behind.queued
        ∙ ap (λ (q : List Outgoing). q ++ behind.sent) round.queued
        ∙ append_assoc conn.sender_queue (round.sent ∷ []) behind.sent;
    tiles = (
      end,
      round.its_start,
      round.its_end,
      round.its_seq,
      bounds.0,
      bounds.1,
      bounds.3,
      rw (← same) behind.tiles,
    );
    found = behind.found;
    at_start = behind.at_start;
    at_seq = behind.at_seq;
    inside = omega (arith, behind.inside, ap length round.same_buffer);
    stopped = rw (← round.same_buffer) behind.stopped;
  }
    where
      same : cursor_of round.after rest ≡ moved (cursor_of client available) end
      same =
          cursor_eq (omega (arith, e, bounds, small, fits)) round.at_end
            (omega (arith, round.at_seq, bounds, fits))

  stopped_at :
      (fuel : ℕ) (conn : Connection D) (client : Client D) (port available : ℕ) (sent_data : Bool)
      → ClientMap.find port conn.clients ≡ some client
      → client.last_byte_sent ≤ length conn.send_buffer
      → (available ≤ header_size) ⊎ (client.last_byte_sent ≡ length conn.send_buffer)
      → IsTiled conn
          (send_loop fuel conn port available sent_data).0
          port
          (cursor_of client available)
  stopped_at fuel conn client port available sent_data e ahead stop =
      rw
        (loop_stops fuel conn client port available sent_data e
          (test_fails available client.last_byte_sent (length conn.send_buffer) stop))
        (nothing_sent conn client port available e ahead stop)

  -- With at least as much fuel as the window leaves bytes, the loop appends to the sender's queue
  -- segments that tile the send buffer from the client's last byte on: contiguous, of 1 to 1000
  -- bytes, numbered by their first bytes, together with their headers no larger than what the window
  -- leaves; the client then stands behind the last of them, in the buffer; and the loop has stopped only since the
  -- buffer is used up or no more than a header's room is left. The client is in the map under its
  -- own port, the available room is a 16-bit number, and the buffer is at least 1000 bytes smaller
  -- than 2 ^ 32 and not smaller than what was sent.
  pub send_loop-IsTiled :
      (fuel : ℕ) (conn : Connection D) (client : Client D) (port available : ℕ) (sent_data : Bool)
      → ClientMap.find port conn.clients ≡ some client
      → client.port ≡ port
      → available ≤ fuel
      → available < 2 ^ 16
      → length conn.send_buffer < 2 ^ 32 - max_data_size
      → client.last_byte_sent ≤ length conn.send_buffer
      → IsTiled conn
          (send_loop fuel conn port available sent_data).0
          port
          (cursor_of client available)
  send_loop-IsTiled zero conn client port available sent_data e own enough small fits ahead =
      stopped_at zero conn client port available sent_data e ahead (inl (omega arith))
  send_loop-IsTiled (suc fuel) conn client port available sent_data e own enough small fits ahead =
      elim (lt_or_le header_size available) [
        | inr full ↦ stopped_at (suc fuel) conn client port available sent_data e ahead (inl full)
        | inl room ↦ elim (lt_or_le client.last_byte_sent (length conn.send_buffer)) [
          | inr over ↦
              stopped_at (suc fuel) conn client port available sent_data e ahead (inr (omega arith))
          | inl more ↦
              let end = next_end available client.last_byte_sent (length conn.send_buffer) in
              let left = u16 (
                available
                + 2 ^ 16
                - u16 (u16 (end + 2 ^ 32 - client.last_byte_sent) + header_size)) in
              let mid = send_round conn port client end in
              let round = round_lem conn client port end e own in
              let bounds =
                next_end_bounds available client.last_byte_sent (length conn.send_buffer) room more
                  fits in
              rw (loop_sends fuel conn client port available sent_data e room more) (
                one_round conn mid _ client port available left end round small bounds fits refl (
                  send_loop-IsTiled fuel mid round.after port left true round.found round.own_port
                    (omega (arith, bounds, fits)) (omega arith)
                    (omega (arith, fits, ap length round.same_buffer))
                    (omega (arith, bounds, round.at_end, ap length round.same_buffer))))
        ]
      ]
