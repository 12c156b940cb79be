-- ===== src/Tcp/Connection/States.antt =====
-- The state of a client in backend/TCP/src/Connection.cpp: what is sent on the way of a segment leaves it
-- as it is.
use mathlib.Core.Path.{subst}
use full_stack_shinfeld.Common.{
  sym, ℕ, ◌≡◌, ◌∙◌, false, List, ◌==◌, some, arith, inl, inr, Option-cases, if◌then◌else◌,
}
use full_stack_shinfeld.Tcp.ClientMap
use full_stack_shinfeld.Tcp.Flags.{State}
use full_stack_shinfeld.Tcp.MessageBuffer.{MessageBuffer}
use full_stack_shinfeld.Tcp.MessageBuffer.Laws.{Holds}
use full_stack_shinfeld.Tcp.Segment.{Segment}
use full_stack_shinfeld.Tcp.Client.{Client}
use full_stack_shinfeld.Tcp.Connection.{
  Connection, ack_flag, create_message, create_message_for, update_client,
}
use full_stack_shinfeld.Tcp.Connection.Sending.{
  is_closing, handle_in_order, send_ack, send_round, send_fin,
}
use full_stack_shinfeld.Tcp.Connection.Message.{create_message-IsMessage}
use full_stack_shinfeld.Tcp.Connection.Round.{find-modify_same}
use full_stack_shinfeld.Tcp.Connection.Traversal.{IsKept, handle_in_order-kept}

-- Every buffered segment came from the port.
abbrev pub FromPort : ℕ → MessageBuffer → Type 0
FromPort port = Holds (λ seq (s : Segment). s.source_port_address ≡ port)

-- The clients at the other ports are those of the map.
abbrev pub SameOthers : {D : Type 0} → List (ℕ × Client D) → ℕ → Connection D → Type 0
SameOthers base port conn =
    (q : ℕ) → (port == q) ≡ false → ClientMap.find q conn.clients ≡ ClientMap.find q base

pub find-modify_other :
    {A : Type 0} (k q : ℕ) (f : A → A) (m : List (ℕ × A))
    → (k == q) ≡ false
    → ClientMap.find q (ClientMap.modify k f m) ≡ ClientMap.find q m
find-modify_other k q f m other = ground (arith, other, ClientMap.find-modify k q f m)

create_message-other :
    {D : Type 0} (conn : Connection D) (src dst seq_num ack flag window urgent ip : ℕ)
    (state : State) (start end q : ℕ)
    → (dst == q) ≡ false
    → ClientMap.find q
        (create_message conn src dst seq_num ack flag window urgent ip state start end).clients
      ≡ ClientMap.find q conn.clients
unfolding create_message create_message_for
create_message-other conn src dst seq_num ack flag window urgent ip state start end q other =
    elim (Option-cases (ClientMap.find dst conn.clients)) [
      | inl e ↦ ground (arith, e)
      | inr (c, e) ↦ rw (e, create_message) (find-modify_other dst q _ conn.clients other)
    ]

-- The client at a port, in a state with a property.
pub record HasState {D : Type 0} (base : List (ℕ × Client D)) (port : ℕ) (P : State → Type 0)
    (conn : Connection D) : Type 0 where
  pub current : Client D
  pub found : ClientMap.find port conn.clients ≡ some current
  pub own_port : current.port ≡ port
  pub its_state : P current.state
  pub from_port : FromPort port current.message_buffer
  pub others : SameOthers base port conn

module _ {D : Type 0} {base : List (ℕ × Client D)} {port : ℕ} {P : State → Type 0} where
  pub weaken :
      {Q : State → Type 0} {conn : Connection D}
      → ((s : State) → P s → Q s)
      → HasState base port P conn
      → HasState base port Q conn
  weaken f h = record {
    current = h.current;
    found = h.found;
    own_port = h.own_port;
    its_state = f h.current.state h.its_state;
    from_port = h.from_port;
    others = h.others;
  }

-- The FIN that `messageHandler` sends leads from the one property of the state to the other.
abbrev pub Ends : (State → Type 0) → (State → Type 0) → Type 0
Ends P Q = (s : State) → P s → Q (if is_closing s then State.last_ack else State.fin_wait_1)

module _ {D : Type 0} {base : List (ℕ × Client D)} (port : ℕ) (P : State → Type 0) where
  pub update_client-HasState :
      (conn : Connection D) (client : Client D) (f : Client D → Client D)
      → ClientMap.find port conn.clients ≡ some client
      → (f client).port ≡ port
      → P (f client).state
      → FromPort port (f client).message_buffer
      → SameOthers base port conn
      → HasState base port P (update_client conn port f)
  unfolding update_client
  update_client-HasState conn client f found own p from others = record {
    current = f client;
    found = find-modify_same port f conn.clients client found;
    own_port = own;
    its_state = p;
    from_port = from;
    others = λ q other. find-modify_other port q f conn.clients other ∙ others q other;
  }

  -- A message to the client leaves it in the state of the message.
  pub create_message-HasState :
      (conn : Connection D) (client : Client D) (src dst seq_num ack flag window urgent ip : ℕ)
      (state : State) (start end : ℕ)
      → ClientMap.find port conn.clients ≡ some client
      → client.port ≡ port
      → dst ≡ port
      → P state
      → FromPort port client.message_buffer
      → SameOthers base port conn
      → HasState base port P
          (create_message conn src dst seq_num ack flag window urgent ip state start end)
  create_message-HasState conn client src dst seq_num ack flag window urgent ip state start end e
        own to p from others =
      let m =
        create_message-IsMessage conn client src port seq_num ack flag window urgent ip state start
          end e in
      rw to record {
        current = m.after;
        found = m.found;
        own_port = m.numbers.port ∙ own;
        its_state = subst P (sym m.in_state) p;
        from_port = subst (λ b. FromPort port b) (sym m.numbers.buffer) from;
        others = λ q other.
            create_message-other conn src port seq_num ack flag window urgent ip state start end q
              other
            ∙ others q other;
      }

  send_ack-HasState :
      (conn : Connection D) (h : HasState base port P conn)
      → HasState base port P (send_ack conn h.current)
  unfolding send_ack
  send_ack-HasState conn h =
      create_message-HasState conn h.current _ _ _ _ _ _ _ _ _ _ _ h.found h.own_port h.own_port
        h.its_state h.from_port h.others

  send_round-HasState :
      (conn : Connection D) (h : HasState base port P conn) (end : ℕ)
      → HasState base port P (send_round conn port h.current end)
  unfolding send_round
  send_round-HasState conn h end =
      let sent =
        create_message-HasState conn h.current conn.source_port h.current.port
          h.current.expected_sequence h.current.expected_ack ack_flag conn.window_size
          conn.urgent_pointer h.current.ip h.current.state h.current.last_byte_sent end h.found
          h.own_port h.own_port h.its_state h.from_port h.others in
      update_client-HasState _ sent.current _ sent.found sent.own_port sent.its_state sent.from_port
        sent.others

  HasState-IsKept : IsKept port (HasState {D = D} base port P)
  HasState-IsKept = record {
    current = λ conn h. h.current;
    found = λ conn h. h.found;
    ack = send_ack-HasState;
    round = send_round-HasState;
    queue = λ conn queue h. record {
      current = h.current;
      found = h.found;
      own_port = h.own_port;
      its_state = h.its_state;
      from_port = h.from_port;
      others = h.others;
    };
  }

  pub send_fin-HasState :
      (conn : Connection D) (client : Client D) (state : State)
      → ClientMap.find port conn.clients ≡ some client
      → client.port ≡ port
      → P state
      → FromPort port client.message_buffer
      → SameOthers base port conn
      → HasState base port P (send_fin conn port client state)
  unfolding send_fin
  send_fin-HasState conn client state e own p from others =
      let sent =
        create_message-HasState conn client _ _ _ _ _ _ _ _ state _ _ e own own p from others in
      update_client-HasState _ sent.current _ sent.found sent.own_port sent.its_state sent.from_port
        sent.others

module _ {D : Type 0} {base : List (ℕ × Client D)} (port : ℕ) (P : State → Type 0) where
  module _ (Q : State → Type 0) (stays : (s : State) → P s → Q s) (ends : Ends P Q) where
    pub in_order-HasState :
        (conn : Connection D) (seg : Segment) (data_written : ℕ)
        → HasState base port P conn
        → HasState base port Q (handle_in_order conn port seg data_written)
    unfolding HasState-IsKept
    in_order-HasState conn seg data_written h =
        handle_in_order-kept port (HasState base port P) (HasState-IsKept port P)
          (HasState base port Q) (λ x k. weaken stays k)
          (λ x k.
            send_fin-HasState port Q x k.current _ k.found k.own_port
              (ends k.current.state k.its_state) k.from_port k.others)
          conn seg data_written h
