-- ===== src/Tcp/Connection.antt =====
-- backend/TCP/src/Connection.cpp and include/Connection.hpp: the state of the communication thread
-- and `createMessage`. The queues are open while the loop runs (`SocketHandler::stop` closes them,
-- after the loop has ended), so they are lists, oldest first. The text of the addresses is converted
-- by the system's `inet_pton`, so they enter as numbers. Logging is left out.
pub mod Sending
pub mod Receiving
pub mod Loop
pub mod Reassembly
pub mod Round
pub mod Tiling
pub mod Stream
pub mod Keeps
pub mod Traversal
pub mod Answers
pub mod Prefix
pub mod Arrivals
pub mod Message
pub mod Opening
pub mod Accepting
pub mod Crossing
pub mod Handshake
pub mod Target
pub mod Closing
pub mod Answering
pub mod Leaving
pub mod Parting
pub mod Teardown
pub mod Next
pub mod States
pub mod StateMachine
pub mod Received
pub mod Transitions
pub mod Resets
pub mod Stale
pub mod Start
use full_stack_shinfeld.Common.{
  ℕ, ◌+◌, ◌-◌, ◌^◌, ◌%◌, ◌++◌, ◌<◌, Bool, true, false, ◌&&◌, ◌||◌, not, List, [], ◌∷◌, Option, none,
  some, ◌==◌, ltb, leb, length, is_some, nonzero, if◌then◌else◌,
}
use full_stack_shinfeld.Common.Bits.{u16, u32}
use full_stack_shinfeld.Tcp.ClientMap
use full_stack_shinfeld.Tcp.Flags.{State, Flags, flag_byte, create_flag}
use full_stack_shinfeld.Tcp.Segment.{Segment, segment_of_range}
use full_stack_shinfeld.Tcp.SegmentInfo.{Store, segment_info, allocate, set_tracking}
use full_stack_shinfeld.Tcp.Client.{Client}
use full_stack_shinfeld.Tcp.Client.Sent.{push_message, get_front_seq_num}

-- An entry of the sender's queue: the segment, and the object whose time its closure sets.
pub record Outgoing : Type 0 where
  pub segment : Segment
  pub on_sent : Option ℕ

pub record Connection (D : Type 0) : Type 0 where
  pub source_port : ℕ
  pub destination_port : ℕ
  pub source_ip : ℕ
  pub destination_ip : ℕ
  pub has_destination : Bool
  pub window_size : ℕ
  pub urgent_pointer : ℕ
  pub default_sequence_number : ℕ
  pub default_ack_number : ℕ
  pub receiver_queue : List Segment
  pub sender_queue : List Outgoing
  pub input_queue : List (List ℕ)
  pub clients : List (ℕ × Client D)
  pub send_buffer : List ℕ
  pub store : Store
  pub running : Bool
  pub time_to_close : Bool
  pub can_close_down : Bool

abbrev pub max_data_size : ℕ
max_data_size = 1000

abbrev pub ack_flag : ℕ
ack_flag = 2 ^ 4

abbrev pub syn_flag : ℕ
syn_flag = 2 ^ 1

abbrev pub fin_flag : ℕ
fin_flag = 2 ^ 0

-- The constructor without a target: `has_destination` says that `destination_ip_str` is not empty. The
-- target's port and address, which this constructor leaves uninitialised, are taken as 0.
unfoldable pub new_connection : {D : Type 0} → ℕ → ℕ → Connection D
new_connection source_port source_ip = record {
  source_port = source_port;
  destination_port = 0;
  source_ip = source_ip;
  destination_ip = 0;
  has_destination = false;
  window_size = 1000;
  urgent_pointer = 0;
  default_sequence_number = 1000;
  default_ack_number = 0;
  receiver_queue = [];
  sender_queue = [];
  input_queue = [];
  clients = [];
  send_buffer = [];
  store = [];
  running = false;
  time_to_close = false;
  can_close_down = false;
}

-- The constructor with a target, whose address is not empty since its conversion succeeded.
unfoldable pub new_connection_to : {D : Type 0} → ℕ → ℕ → ℕ → ℕ → Connection D
unfolding new_connection
new_connection_to source_port destination_port source_ip destination_ip =
    record (new_connection source_port source_ip) {
      destination_port = destination_port;
      destination_ip = destination_ip;
      has_destination = true;
    }

-- The segments that `createMessage` tracks until they are acknowledged.
unfoldable pub is_tracked : ℕ → ℕ → Bool
unfolding create_flag flag_byte
is_tracked flag end =
    flag == flag_byte Flags.syn
    || flag == create_flag Flags.syn Flags.ack
    || flag == flag_byte Flags.fin
    || flag == create_flag Flags.fin Flags.ack
    || (flag == flag_byte Flags.ack && ltb 0 end)

-- The store, the client and the new object of a tracked segment.
pub record Tracked (D : Type 0) : Type 0 where
  pub store : Store
  pub client : Client D
  pub on_sent : Option ℕ

module _ {D : Type 0} where
  unfoldable pub update_client : Connection D → ℕ → (Client D → Client D) → Connection D
  update_client conn port f = record conn { clients = ClientMap.modify port f conn.clients }

  -- A new object; it becomes the tracker if there is none, and joins the queue of sent segments
  -- unless the front of the queue has its sequence number.
  unfoldable pub track : Store → Client D → ℕ → ℕ → ℕ → ℕ → Tracked D
  track store client seq_num flag start end =
      let p = length store in
      let tracking = not (is_some client.tracker_segment) in
      let info = segment_info seq_num flag start (u32 (end + 2 ^ 32 - start)) false in
      let made = allocate store info in
      let store' = if tracking then set_tracking made p true else made in
      let client' : Client D =
        if tracking then record client { tracker_segment = some p } else client in
      let client'' =
        if get_front_seq_num store' client' == seq_num
        then client'
        else push_message store' client' p in
      record { store = store'; client = client''; on_sent = some p }

  -- `createMessage` once the client of the destination port is found.
  unfoldable pub create_message_for :
      Connection D → Client D → ℕ → ℕ → ℕ → ℕ → ℕ → ℕ → ℕ → ℕ → State → ℕ → ℕ → Connection D
  create_message_for conn client src_port dst_port seq_num ack_num flag window urgent_ptr dst_ip
        state start end =
      let tracked : Tracked D =
        if is_tracked flag end
        then track conn.store client seq_num flag start end
        else record { store = conn.store; client = client; on_sent = none } in
      let segment =
        segment_of_range src_port dst_port seq_num ack_num flag window urgent_ptr dst_ip start
          end in
      let client' : Client D = record (tracked.client) { state = state; expected_ack = ack_num } in
      record conn {
        store = tracked.store;
        sender_queue =
            conn.sender_queue ++ record { segment = segment; on_sent = tracked.on_sent } ∷ [];
        clients = ClientMap.modify dst_port (λ _. client') conn.clients;
      }

  unfoldable pub create_message :
      Connection D → ℕ → ℕ → ℕ → ℕ → ℕ → ℕ → ℕ → ℕ → State → ℕ → ℕ → Connection D
  create_message conn src_port dst_port seq_num ack_num flag window urgent_ptr dst_ip state start
        end =
      elim (ClientMap.find dst_port conn.clients) [
        | none ↦ conn
        | some client ↦
            create_message_for conn client src_port dst_port seq_num ack_num flag window urgent_ptr
              dst_ip state start end
      ]
