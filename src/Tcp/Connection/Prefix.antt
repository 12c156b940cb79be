-- ===== src/Tcp/Connection/Prefix.antt =====
-- The received file stays a prefix of the peer's stream in `messageHandler` and in the case of an ACK.
use mathlib.Core.Path.{subst}
use full_stack_shinfeld.Common.{
  ℕ, ◌+◌, ◌^◌, ◌≤◌, ◌<◌, ◌≡◌, inl, inr, refl, ◌∙◌, ◌&&◌, Bool, true, false, List, Option, none,
  some, ◌==◌, ltb, ltb→lt, leb, length, is_empty, arith, Bool-cases, if◌then◌else◌,
}
use full_stack_shinfeld.Tcp.ClientMap
use full_stack_shinfeld.Tcp.Segment.{Segment, set_seq_num}
use full_stack_shinfeld.Tcp.Client.{Client}
use full_stack_shinfeld.Tcp.Client.Sent.{set_item_message_buffer, close_file}
use full_stack_shinfeld.Tcp.Connection.{Connection, update_client}
use full_stack_shinfeld.Tcp.Connection.Sending.{take_ack, message_handler}
use full_stack_shinfeld.Tcp.Connection.Receiving.{
  or_last, receive_data, ack_in_order, buffer_segment, on_ack_for,
}
use full_stack_shinfeld.Tcp.Connection.Round.{find-modify_same}
use full_stack_shinfeld.Tcp.Connection.Keeps.{HasReceived, IsSameView}
use full_stack_shinfeld.Tcp.Connection.Traversal.{handler_found}
use full_stack_shinfeld.Tcp.Connection.Answers.{handle_in_order-Good, take_ack-Good}
use full_stack_shinfeld.Tcp.MessageBuffer.Laws.{insert-Holds}
use full_stack_shinfeld.Tcp.Connection.Stream.{IsPart, IsPrefixTo, IsFrom, receive_data-StandsAt}

-- The client at the port has written the stream up to the number that it expects next, and has
-- buffered only parts of the stream.
pub record IsReceiving {D : Type 0} (stream : List ℕ) (first port : ℕ) (conn : Connection D)
    : Type 0 where
  pub client : Client D
  pub found : ClientMap.find port conn.clients ≡ some client
  pub own_port : client.port ≡ port
  pub prefix : IsPrefixTo stream first port client.expected_ack client.file client.message_buffer

module _ {D : Type 0} (stream : List ℕ) (first : ℕ) where
  -- What leaves the received data of a client as it is.
  keep-IsReceiving :
      (port : ℕ) (conn conn' : Connection D) (h : IsReceiving stream first port conn)
      → HasReceived conn' port h.client.expected_ack h.client.file h.client.message_buffer
      → IsReceiving stream first port conn'
  keep-IsReceiving port conn conn' h k = record {
    client = k.current;
    found = k.found;
    own_port = k.own_port;
    prefix = rw (k.same_ack, k.same_file, k.same_buffer) h.prefix;
  }

  now_received :
      (port : ℕ) (conn : Connection D) (h : IsReceiving stream first port conn)
      → HasReceived conn port h.client.expected_ack h.client.file h.client.message_buffer
  now_received port conn h = record {
    current = h.client;
    found = h.found;
    own_port = h.own_port;
    same_ack = refl;
    same_file = refl;
    same_buffer = refl;
  }

  -- A segment that is kept for later.
  buffered-IsReceiving :
      (port : ℕ) (conn : Connection D) (f : Client D → Client D) (seg : Segment)
      (h : IsReceiving stream first port conn)
      → IsPart stream first port seg.sequence_number seg
      → IsSameView h.client (f h.client)
      → IsReceiving stream first port
          (update_client conn port (λ c. set_item_message_buffer (f c) seg.sequence_number seg))
  unfolding update_client set_item_message_buffer
  buffered-IsReceiving port conn f seg h p v = record {
    client = set_item_message_buffer (f h.client) seg.sequence_number seg;
    found = find-modify_same port _ conn.clients h.client h.found;
    own_port = v.port ∙ h.own_port;
    prefix =
        rw (v.ack, v.file, v.buffer)
          (record {
            from_first = h.prefix.from_first;
            inside = h.prefix.inside;
            written = h.prefix.written;
            parts =
                insert-Holds (IsPart stream first port) seg.sequence_number seg
                  h.client.message_buffer h.prefix.parts p;
          });
  }

  own_handler-IsReceiving :
      (conn : Connection D) (seg : Segment) (data_written : ℕ)
      (h : IsReceiving stream first seg.source_port_address conn)
      → (h.client.expected_ack < seg.sequence_number
          → IsPart stream first seg.source_port_address seg.sequence_number seg)
      → IsReceiving stream first seg.source_port_address (message_handler conn seg data_written)
  own_handler-IsReceiving conn seg data_written h p =
      let port = seg.source_port_address in
      let acked = take_ack conn port seg in
      let k = take_ack-Good port _ _ _ conn seg (now_received port conn h) in
      let h' = keep-IsReceiving port conn acked h k in
      rw (handler_found conn h.client seg data_written h.found)
        (elim (Bool-cases (ltb h.client.expected_ack seg.sequence_number)) [
          | inl t ↦ rw t (
              buffered-IsReceiving port acked (λ c. c) seg h' (p (ltb→lt _ _ t))
                (record { port = refl; ack = refl; file = refl; buffer = refl }))
          | inr t ↦ rw t (
              keep-IsReceiving port conn _ h
                (handle_in_order-Good port _ _ _ acked seg data_written k))
        ])

  handler-IsReceiving :
      (port : ℕ) (conn : Connection D) (seg : Segment) (data_written : ℕ)
      → seg.source_port_address ≡ port
      → (h : IsReceiving stream first port conn)
      → (h.client.expected_ack < seg.sequence_number
          → IsPart stream first port seg.sequence_number seg)
      → IsReceiving stream first port (message_handler conn seg data_written)
  handler-IsReceiving port conn seg data_written e =
      subst
        (λ q.
          (h : IsReceiving stream first q conn)
          → (h.client.expected_ack < seg.sequence_number
              → IsPart stream first q seg.sequence_number seg)
          → IsReceiving stream first q (message_handler conn seg data_written))
        e (own_handler-IsReceiving conn seg data_written)

pub last_from :
    (port : ℕ) (o : Option Segment) (seg : Segment)
    → IsFrom port o
    → seg.source_port_address ≡ port
    → (or_last o seg).source_port_address ≡ port
unfolding or_last
last_from port none seg h e = e
last_from port (some s) seg h e = h

module _ {D : Type 0} (stream : List ℕ) (first port : ℕ)
    (fits : first + length stream < 2 ^ 32) where
  -- The handler, after the client was changed, for a segment that is not ahead of it.
  entered_handler :
      (conn : Connection D) (client entered : Client D) (seg : Segment) (data_written : ℕ)
      → seg.source_port_address ≡ port
      → ClientMap.find port conn.clients ≡ some client
      → entered.port ≡ port
      → IsPrefixTo stream first port entered.expected_ack entered.file entered.message_buffer
      → seg.sequence_number ≤ entered.expected_ack
      → IsReceiving stream first port
          (message_handler (update_client conn port (λ _. entered)) seg data_written)
  unfolding update_client
  entered_handler conn client entered seg data_written from e own prefix not_ahead =
      handler-IsReceiving stream first port _ seg data_written from
        (record {
          client = entered;
          found = find-modify_same port (λ _. entered) conn.clients client e;
          own_port = own;
          prefix = prefix;
        })
        (λ more. absurd (omega (arith, more)))

  if-IsReceiving :
      (b : Bool) (x y : Connection D)
      → IsReceiving stream first port x
      → IsReceiving stream first port y
      → IsReceiving stream first port (if b then x else y)
  if-IsReceiving true x y h k = h
  if-IsReceiving false x y h k = k

  ack_in_order-IsReceiving :
      (conn : Connection D) (client : Client D) (seg : Segment)
      → ClientMap.find port conn.clients ≡ some client
      → client.port ≡ port
      → IsPrefixTo stream first port seg.sequence_number client.file client.message_buffer
      → client.expected_ack ≡ seg.sequence_number
      → IsPart stream first port seg.sequence_number seg
      → IsReceiving stream first port (ack_in_order conn port client seg)
  unfolding ack_in_order close_file set_seq_num
  ack_in_order-IsReceiving conn client seg e own prefix next part =
      elim (Bool-cases (is_empty seg.payload)) [
        | inl t ↦ rw t (
            entered_handler conn client _ seg 0 part.3 e own (rw next prefix) (omega (arith, next)))
        | inr t ↦
            let arrived = receive_data client seg in
            let stands = receive_data-StandsAt stream first port fits client seg prefix part own in
            rw t (
              entered_handler conn client _ _ arrived.data_written
                (last_from port arrived.last seg stands.1 part.3) e stands.2 stands.0 (omega arith))
      ]

  pub on_ack_for-IsReceiving :
      (conn : Connection D) (client : Client D) (seg : Segment)
      → ClientMap.find port conn.clients ≡ some client
      → client.port ≡ port
      → IsPrefixTo stream first port client.expected_ack client.file client.message_buffer
      → IsPart stream first port seg.sequence_number seg
      → IsReceiving stream first port (on_ack_for conn port client seg)
  unfolding on_ack_for buffer_segment
  on_ack_for-IsReceiving conn client seg e own prefix part =
      let ack = seg.acknowledgement_number in
      let here : IsReceiving stream first port conn = record {
        client = client;
        found = e;
        own_port = own;
        prefix = prefix;
      } in
      elim (Bool-cases (ltb client.expected_ack seg.sequence_number)) [
        | inl t ↦ rw t (
            if-IsReceiving (ltb client.last_ack ack && leb ack client.expected_sequence) _ _
              (handler-IsReceiving stream first port conn seg 0 part.3 here (λ _. part))
              (buffered-IsReceiving stream first port conn
                (λ c. record c { window_size = seg.window_size }) seg here part
                (record { port = refl; ack = refl; file = refl; buffer = refl })))
        | inr t ↦
            let test =
              leb client.last_ack ack
              && leb ack client.expected_sequence
              && seg.sequence_number == client.expected_ack in
            rw t (elim (Bool-cases test) [
              | inl u ↦
                  let next : client.expected_ack ≡ seg.sequence_number = ground (arith, u) in
                  rw u
                    (ack_in_order-IsReceiving conn client seg e own (rw (← next) prefix) next part)
              | inr u ↦ rw u here
            ])
      ]
