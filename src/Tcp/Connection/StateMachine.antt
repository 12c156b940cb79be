-- ===== src/Tcp/Connection/StateMachine.antt =====
-- The state machine of a client in backend/TCP/src/Connection.cpp: what a received segment makes of the
-- state of the client that it comes from.
use mathlib.Core.Path.{subst}
use full_stack_shinfeld.Common.{
  ap, List, false, refl, ℕ, ◌+◌, ◌≡◌, inl, inr, sym, ◌∙◌, true, some, ltb, is_empty, arith,
  Bool-cases, if◌then◌else◌,
}
use full_stack_shinfeld.Common.Bits.{u32}
use full_stack_shinfeld.Tcp.ClientMap
use full_stack_shinfeld.Tcp.Flags.{State, Flags, FlagType, create_flag}
use full_stack_shinfeld.Tcp.Segment.{Segment, set_seq_num}
use full_stack_shinfeld.Tcp.Client.{Client}
use full_stack_shinfeld.Tcp.Client.Sent.{check_front_all, close_file}
use full_stack_shinfeld.Tcp.Connection.{Connection}
use full_stack_shinfeld.Tcp.Connection.Sending.{is_closing}
use full_stack_shinfeld.Tcp.Connection.Receiving.{
  receive_data, ack_in_order, buffer_segment, on_ack_for, on_fin_for, on_fin_ack_for, fin_in_order,
  state_after_ack, state_after_fin, state_after_fin_ack, is_none_state,
}
use full_stack_shinfeld.Tcp.Connection.Prefix.{last_from}
use full_stack_shinfeld.Tcp.Connection.Closing.{fin_reply}
use full_stack_shinfeld.Tcp.Connection.Traversal.{if-kept}
use full_stack_shinfeld.Tcp.Connection.Next.{Next, accepts}
use full_stack_shinfeld.Tcp.Connection.States.{
  SameOthers, FromPort, HasState, update_client-HasState, create_message-HasState, weaken,
}
use full_stack_shinfeld.Tcp.Connection.Transitions.{
  changed-HasState, buffered-HasState, handler-HasState, ahead-HasState, receive_data-IsOwn,
}

is_closing-closing : (s : State) → is_closing s ≡ true → s ≡ State.closing
is_closing-closing s e = ground arith

-- The state after an ACK that is accepted, before our own FIN.
ack_enters : (s t : State) → t ≡ state_after_ack s → Next FlagType.ack true s t
unfolding state_after_ack
ack_enters State.syn_sent t e = rw e Next.opened
ack_enters s t e = rw e (Next.goes_on s refl)

-- Our own FIN behind it.
ack_ends :
    (s t : State)
    → t ≡ state_after_ack s
    → Next FlagType.ack true s (if is_closing t then State.last_ack else State.fin_wait_1)
unfolding state_after_ack
ack_ends State.syn_sent t e = rw e Next.opened_and_left
ack_ends State.closing t e = rw e Next.ends
ack_ends s t e = rw e (Next.leaves s refl refl)

fin_ack_leads : (s : State) → Next FlagType.fin_ack true s (state_after_fin_ack s)
unfolding state_after_fin_ack
fin_ack_leads State.fin_wait_1 = Next.acknowledged
fin_ack_leads State.last_ack = Next.closes
fin_ack_leads s = Next.loses s refl

-- Where a FIN leads, if it leads out of the state.
fin_leads :
    (s : State)
    → is_none_state (state_after_fin s) ≡ false
    → Next FlagType.fin true s (state_after_fin s)
unfolding state_after_fin is_none_state
fin_leads State.established e = Next.answers
fin_leads State.fin_wait_2 e = Next.waits
fin_leads s e = absurd (cc)

fin_stays : (s : State) → is_none_state (state_after_fin s) ≡ true → Next FlagType.fin true s s
unfolding state_after_fin is_none_state
fin_stays State.established e = absurd (cc)
fin_stays State.fin_wait_2 e = absurd (cc)
fin_stays s e = Next.ignores s refl

-- Our own FIN behind the answer.
fin_follows :
    (s : State) → state_after_fin s ≡ State.closing → Next FlagType.fin true s State.last_ack
unfolding state_after_fin
fin_follows State.established e = Next.follows
fin_follows s e = absurd (cc)

-- A segment ahead of the client is not accepted.
ahead_refused :
    {D : Type 0} (client : Client D) (seg : Segment)
    → ltb client.expected_ack seg.sequence_number ≡ true
    → (accepts FlagType.ack client seg ≡ false)
      × (accepts FlagType.fin client seg ≡ false)
      × (accepts FlagType.fin_ack client seg ≡ false)
unfolding accepts
ahead_refused client seg t = (ground (arith, t), ground (arith, t), ground (arith, t))

module _ {D : Type 0} {base : List (ℕ × Client D)} (port : ℕ) (conn : Connection D)
    (client : Client D) (seg : Segment) (found : ClientMap.find port conn.clients ≡ some client)
    (own : client.port ≡ port) (from : FromPort port client.message_buffer)
    (by : seg.source_port_address ≡ port) (others : SameOthers base port conn) where
  abbrev standing : (P : State → Type 0) → P client.state → HasState base port P conn
  standing P p = record {
    current = client;
    found = found;
    own_port = own;
    its_state = p;
    from_port = from;
    others = others;
  }

  abbrev refused : (type : FlagType) → HasState base port (Next type false client.state) conn
  refused type = standing (Next type false client.state) (Next.stays type client.state)

  kept_for_later :
      (type : FlagType)
      → HasState base port (Next type false client.state) (buffer_segment conn port seg)
  unfolding buffer_segment
  kept_for_later type =
      buffered-HasState port _ conn (λ c. record c { window_size = seg.window_size }) seg
        (refused type) by refl refl refl

  ack_in_order-HasState :
      HasState base port (Next FlagType.ack true client.state) (ack_in_order conn port client seg)
  unfolding ack_in_order close_file set_seq_num
  ack_in_order-HasState =
      let s = client.state in
      let P : State → Type 0 = λ t. t ≡ state_after_ack s in
      let arrived = receive_data client seg in
      let r = receive_data-IsOwn port client seg from in
      let handled =
        handler-HasState P (Next FlagType.ack true s) (ack_enters s) (ack_ends s) port in
      elim (Bool-cases (is_empty seg.payload)) [
        | inl t ↦ rw t (
            handled _ seg 0 by
              (update_client-HasState port P conn client _ found own refl from others))
        | inr t ↦ rw t (
            handled _ _ _ (last_from port arrived.last seg r.3 by) (
              update_client-HasState port P conn client _ found (r.0 ∙ own) (ap state_after_ack r.1)
                r.2 others))
      ]

  pub on_ack_for-HasState :
      HasState base port
        (Next FlagType.ack (accepts FlagType.ack client seg) client.state)
        (on_ack_for conn port client seg)
  unfolding on_ack_for accepts
  on_ack_for-HasState = elim (Bool-cases (ltb client.expected_ack seg.sequence_number)) [
    | inl t ↦
        rw (t, (ahead_refused client seg t).0)
          (if-kept (HasState base port (Next FlagType.ack false client.state)) _ _ _
            (ahead-HasState _ port conn seg 0 by (refused FlagType.ack) t)
            (kept_for_later FlagType.ack))
    | inr t ↦ elim (Bool-cases (accepts FlagType.ack client seg)) [
      | inl u ↦ rw (t, u) ack_in_order-HasState
      | inr u ↦ rw (t, u) (refused FlagType.ack)
    ]
  ]

  fin_reply-HasState :
      (new_state : State)
      → HasState base port (λ s. s ≡ new_state) (fin_reply conn port client seg new_state)
  fin_reply-HasState new_state =
      let replied =
        create_message-HasState port (λ s. s ≡ new_state) conn client conn.source_port client.port
          client.expected_sequence (u32 (seg.sequence_number + 1)) (create_flag Flags.fin Flags.ack)
          conn.window_size conn.urgent_pointer client.ip new_state 0 0 found own own refl from
          others in
      changed-HasState port (λ s. s ≡ new_state) _ replied
        (λ c. record c {
          window_size = seg.window_size;
          last_ack = seg.acknowledgement_number;
          expected_ack = u32 (seg.sequence_number + 1);
          expected_sequence = u32 (c.expected_sequence + 1);
        })
        refl refl replied.from_port

  -- The answer to a FIN in order, and our own FIN behind it, if all data is sent.
  fin_in_order-HasState :
      (new_state : State)
      → Next FlagType.fin true client.state new_state
      → (new_state ≡ State.closing → Next FlagType.fin true client.state State.last_ack)
      → HasState base port
          (Next FlagType.fin true client.state)
          (fin_in_order conn port client seg new_state)
  unfolding fin_in_order
  fin_in_order-HasState State.closing step end =
      handler-HasState (λ s. s ≡ State.closing) (Next FlagType.fin true client.state)
        (λ s e. rw e step) (λ s e. rw e (end refl)) port _ seg 0 by
        (fin_reply-HasState State.closing)
  fin_in_order-HasState other step end =
      weaken (λ s e. subst (λ t. Next FlagType.fin true client.state t) (sym e) step)
        (fin_reply-HasState other)

  after_fin-HasState : HasState base port (Next FlagType.fin true client.state) (
      if is_none_state (state_after_fin client.state)
      then conn
      else fin_in_order conn port client seg (state_after_fin client.state))
  after_fin-HasState =
      let s = client.state in
      elim (Bool-cases (is_none_state (state_after_fin s))) [
        | inl t ↦ rw t (standing (Next FlagType.fin true s) (fin_stays s t))
        | inr t ↦ rw t (fin_in_order-HasState (state_after_fin s) (fin_leads s t) (fin_follows s))
      ]

  pub on_fin_for-HasState :
      HasState base port
        (Next FlagType.fin (accepts FlagType.fin client seg) client.state)
        (on_fin_for conn port client seg)
  unfolding on_fin_for accepts
  on_fin_for-HasState = elim (Bool-cases (ltb client.expected_ack seg.sequence_number)) [
    | inl t ↦
        rw (t, (ahead_refused client seg t).1)
          (if-kept (HasState base port (Next FlagType.fin false client.state)) _ _ _
            (ahead-HasState _ port conn seg 0 by (refused FlagType.fin) t)
            (kept_for_later FlagType.fin))
    | inr t ↦ elim (Bool-cases (accepts FlagType.fin client seg)) [
      | inl u ↦ rw (t, u) after_fin-HasState
      | inr u ↦ rw (t, u) (refused FlagType.fin)
    ]
  ]

  pub on_fin_ack_for-HasState :
      HasState base port
        (Next FlagType.fin_ack (accepts FlagType.fin_ack client seg) client.state)
        (on_fin_ack_for conn port client seg)
  unfolding on_fin_ack_for check_front_all accepts
  on_fin_ack_for-HasState = elim (Bool-cases (ltb client.expected_ack seg.sequence_number)) [
    | inl t ↦
        rw (t, (ahead_refused client seg t).2)
          (if-kept (HasState base port (Next FlagType.fin_ack false client.state)) _ _ _
            (ahead-HasState _ port conn seg 0 by (refused FlagType.fin_ack) t)
            (refused FlagType.fin_ack))
    | inr t ↦ elim (Bool-cases (accepts FlagType.fin_ack client seg)) [
      | inl u ↦
          rw (t, u)
            (update_client-HasState port (Next FlagType.fin_ack true client.state) conn client _
              found own (fin_ack_leads client.state) from others)
      | inr u ↦ rw (t, u) (refused FlagType.fin_ack)
    ]
  ]
