-- ===== src/Tcp/Connection/Received.antt =====
-- The state machine of a client over `communicate` of backend/TCP/src/Connection.cpp: every type of
-- segment, and those that are for another port.
use mathlib.Core.Path.{subst}
use full_stack_shinfeld.Common.{
  Bool, true, false, not, Bool-cases, inl, inr, ◌==◌, ◌&&◌, if◌then◌else◌, List, ap, refl, ℕ, ◌+◌,
  ◌≡◌, sym, ◌∙◌, some,
}
use full_stack_shinfeld.Common.Bits.{u32}
use full_stack_shinfeld.Tcp.ClientMap
use full_stack_shinfeld.Tcp.Flags.{State, Flags, FlagType, create_flag, decode_flags}
use full_stack_shinfeld.Tcp.Segment.{Segment}
use full_stack_shinfeld.Tcp.Client.{Client, Doubles, check_tracker_segment, new_client}
use full_stack_shinfeld.Tcp.Client.Sent.{check_front_all}
use full_stack_shinfeld.Tcp.Connection.{Connection, ack_flag, create_message, update_client}
use full_stack_shinfeld.Tcp.Connection.Receiving.{
  on_ack_for, on_fin_for, on_fin_ack_for, on_syn_ack_for,
}
use full_stack_shinfeld.Tcp.Connection.Loop.{on_syn, on_syn_ack, with_client, receive_segment}
use full_stack_shinfeld.Tcp.Connection.Round.{find-modify_same}
use full_stack_shinfeld.Tcp.Connection.Opening.{check_tracker_segment-keeps}
use full_stack_shinfeld.Tcp.Connection.Resets.{try_emplace-found}
use full_stack_shinfeld.Tcp.Connection.Next.{Next, accepts}
use full_stack_shinfeld.Tcp.Connection.States.{
  find-modify_other, SameOthers, FromPort, HasState, create_message-HasState, weaken,
}
use full_stack_shinfeld.Tcp.Connection.Transitions.{changed-HasState}
use full_stack_shinfeld.Tcp.Connection.StateMachine.{
  on_ack_for-HasState, on_fin_for-HasState, on_fin_ack_for-HasState,
}

-- What is accepted depends on three numbers of the client.
accepts-same :
    {D : Type 0} (type : FlagType) (c d : Client D) (seg : Segment)
    → d.expected_sequence ≡ c.expected_sequence
    → d.last_ack ≡ c.last_ack
    → d.expected_ack ≡ c.expected_ack
    → accepts type d seg ≡ accepts type c seg
unfolding accepts
accepts-same FlagType.syn c d seg e f g = refl
accepts-same FlagType.syn_ack c d seg e f g = rw e refl
accepts-same FlagType.fin c d seg e f g = rw (e, f, g) refl
accepts-same FlagType.fin_ack c d seg e f g = rw (e, g) refl
accepts-same FlagType.ack c d seg e f g = rw (e, f, g) refl
accepts-same FlagType.invalid c d seg e f g = refl
accepts-same FlagType.psh_ack c d seg e f g = refl
accepts-same FlagType.rst c d seg e f g = refl
accepts-same FlagType.data_type c d seg e f g = refl

module _ {D : Type 0} {base : List (ℕ × Client D)} (port : ℕ) (conn : Connection D)
    (client : Client D) (seg : Segment) (found : ClientMap.find port conn.clients ≡ some client)
    (own : client.port ≡ port) (from : FromPort port client.message_buffer)
    (others : SameOthers base port conn) where
  on_syn_ack_for-HasState :
      HasState base port
        (Next FlagType.syn_ack true client.state)
        (on_syn_ack_for conn port client seg)
  unfolding on_syn_ack_for check_front_all
  on_syn_ack_for-HasState =
      let P = Next FlagType.syn_ack true client.state in
      let answered =
        create_message conn conn.source_port client.port client.expected_sequence
          (u32 (seg.sequence_number + 1)) ack_flag conn.window_size conn.urgent_pointer client.ip
          State.established 0 0 in
      let replied =
        create_message-HasState port P conn client conn.source_port client.port
          client.expected_sequence (u32 (seg.sequence_number + 1)) ack_flag conn.window_size
          conn.urgent_pointer client.ip State.established 0 0 found own own
          (Next.opens client.state) from others in
      changed-HasState port P answered replied
        (λ c. record (check_front_all answered.store c seg.acknowledgement_number) {
          last_ack = seg.acknowledgement_number;
          window_size = seg.window_size;
        })
        refl refl replied.from_port

module _ {D : Type 0} (F : Doubles D) (now : ℕ) (conn : Connection D) (seg : Segment)
    (client : Client D) (found : ClientMap.find seg.source_port_address conn.clients ≡ some client)
    (own : client.port ≡ seg.source_port_address)
    (from : FromPort seg.source_port_address client.message_buffer) where
  abbrev Reaches : FlagType → Bool → Connection D → Type 0
  Reaches type accepted =
      HasState conn.clients seg.source_port_address (Next type accepted client.state)

  on_syn-Reaches : Reaches FlagType.syn true (on_syn F conn seg)
  unfolding on_syn
  on_syn-Reaches =
      let port = seg.source_port_address in
      let P = Next FlagType.syn true client.state in
      let ack = u32 (seg.sequence_number + 1) in
      let peer = new_client F port seg.destination_ip 0 ack 0 State.syn_received in
      let known = record conn { clients = ClientMap.try_emplace port peer conn.clients } in
      let replied =
        create_message-HasState port P known client conn.source_port port
          conn.default_sequence_number ack (create_flag Flags.syn Flags.ack) conn.window_size
          conn.urgent_pointer seg.destination_ip State.syn_sent 0 0
          (rw (try_emplace-found F port peer client conn.clients found) found) own refl
          (Next.resets client.state) from
          (λ q other.
            ap (λ m. ClientMap.find q m)
              (try_emplace-found F port peer client conn.clients found)) in
      changed-HasState port P _ replied
        (λ c. record c { expected_sequence = u32 (conn.default_sequence_number + 1) }) refl refl
        replied.from_port

  with_client-Reaches :
      (type : FlagType) (handler : Connection D → ℕ → Client D → Segment → Connection D)
      → ((before : Connection D) (c : Client D)
          → ClientMap.find seg.source_port_address before.clients ≡ some c
          → c.port ≡ seg.source_port_address
          → FromPort seg.source_port_address c.message_buffer
          → SameOthers conn.clients seg.source_port_address before
          → accepts type c seg ≡ accepts type client seg
          → HasState conn.clients seg.source_port_address
              (Next type (accepts type client seg) c.state)
              (handler before seg.source_port_address c seg))
      → Reaches type (accepts type client seg) (with_client F now conn seg handler)
  unfolding with_client update_client
  with_client-Reaches type handler good =
      let port = seg.source_port_address in
      let timed = check_tracker_segment F conn.store now client seg.acknowledgement_number in
      let keeps = check_tracker_segment-keeps F conn.store now client seg.acknowledgement_number in
      let h =
        good (update_client conn port (λ _. timed)) timed
          (find-modify_same port (λ _. timed) conn.clients client found) (keeps.0.port ∙ own)
          (subst (λ b. FromPort port b) (sym keeps.0.buffer) from)
          (λ q other. find-modify_other port q (λ _. timed) conn.clients other)
          (accepts-same type client timed seg keeps.0.sequence keeps.0.acked keeps.2) in
      rw (found, with_client)
        (weaken (λ s k. subst (λ u. Next type (accepts type client seg) u s) keeps.1 k) h)

  standing :
      (type : FlagType) (accepted : Bool)
      → Next type accepted client.state client.state
      → Reaches type accepted conn
  standing type accepted p = record {
    current = client;
    found = found;
    own_port = own;
    its_state = p;
    from_port = from;
    others = λ q other. refl;
  }

  on_syn_ack-Reaches :
      Reaches FlagType.syn_ack (accepts FlagType.syn_ack client seg) (on_syn_ack F now conn seg)
  unfolding on_syn_ack accepts
  on_syn_ack-Reaches =
      let port = seg.source_port_address in
      elim (Bool-cases (accepts FlagType.syn_ack client seg)) [
        | inl t ↦
            rw (found, on_syn_ack, t)
              (subst (λ a. Reaches FlagType.syn_ack a (with_client F now conn seg on_syn_ack_for)) t
                (with_client-Reaches FlagType.syn_ack on_syn_ack_for
                  λ before c found own from others same.
                    subst
                      (λ a.
                        HasState conn.clients port (Next FlagType.syn_ack a c.state)
                          (on_syn_ack_for before port c seg))
                      (sym t) (on_syn_ack_for-HasState port before c seg found own from others)))
        | inr t ↦
            rw (found, on_syn_ack, t)
              (standing FlagType.syn_ack false (Next.stays FlagType.syn_ack client.state))
      ]

  -- A segment for another port changes nothing.
  if_ours :
      (type : FlagType) (after : Connection D)
      → Reaches type (accepts type client seg) after
      → Reaches type
          (seg.destination_port_address == conn.source_port && accepts type client seg)
          (if not (seg.destination_port_address == conn.source_port) then conn else after)
  if_ours type after h = elim (Bool-cases (seg.destination_port_address == conn.source_port)) [
    | inl t ↦ rw t h
    | inr t ↦ rw t (standing type false (Next.stays type client.state))
  ]

  dispatched :
      (type : FlagType)
      → decode_flags seg.flags ≡ type
      → Reaches type
          (seg.destination_port_address == conn.source_port && accepts type client seg)
          (receive_segment F now conn seg)
  unfolding receive_segment accepts
  dispatched FlagType.syn e = rw (e, receive_segment) (if_ours FlagType.syn _ on_syn-Reaches)
  dispatched FlagType.syn_ack e =
      rw (e, receive_segment) (if_ours FlagType.syn_ack _ on_syn_ack-Reaches)
  dispatched FlagType.fin e =
      rw (e, receive_segment)
        (if_ours FlagType.fin _ (
          with_client-Reaches FlagType.fin on_fin_for λ before c found own from others same.
            subst
              (λ a.
                HasState conn.clients seg.source_port_address (Next FlagType.fin a c.state)
                  (on_fin_for before seg.source_port_address c seg))
              same
              (on_fin_for-HasState seg.source_port_address before c seg found own from refl
                others)))
  dispatched FlagType.fin_ack e =
      rw (e, receive_segment)
        (if_ours FlagType.fin_ack _ (
          with_client-Reaches FlagType.fin_ack on_fin_ack_for λ before c found own from others same.
            subst
              (λ a.
                HasState conn.clients seg.source_port_address (Next FlagType.fin_ack a c.state)
                  (on_fin_ack_for before seg.source_port_address c seg))
              same
              (on_fin_ack_for-HasState seg.source_port_address before c seg found own from refl
                others)))
  dispatched FlagType.ack e =
      rw (e, receive_segment)
        (if_ours FlagType.ack _ (
          with_client-Reaches FlagType.ack on_ack_for λ before c found own from others same.
            subst
              (λ a.
                HasState conn.clients seg.source_port_address (Next FlagType.ack a c.state)
                  (on_ack_for before seg.source_port_address c seg))
              same
              (on_ack_for-HasState seg.source_port_address before c seg found own from refl
                others)))
  dispatched FlagType.invalid e =
      rw (e, receive_segment)
        (if_ours FlagType.invalid _
          (standing FlagType.invalid true (Next.unhandled FlagType.invalid client.state refl)))
  dispatched FlagType.psh_ack e =
      rw (e, receive_segment)
        (if_ours FlagType.psh_ack _
          (standing FlagType.psh_ack true (Next.unhandled FlagType.psh_ack client.state refl)))
  dispatched FlagType.rst e =
      rw (e, receive_segment)
        (if_ours FlagType.rst _
          (standing FlagType.rst true (Next.unhandled FlagType.rst client.state refl)))
  dispatched FlagType.data_type e =
      rw (e, receive_segment)
        (if_ours FlagType.data_type _
          (standing FlagType.data_type true (Next.unhandled FlagType.data_type client.state refl)))

  -- A segment keeps the client that it comes from, which stays under its port. If the segment is for
  -- our port and has the numbers that are accepted for its type, then the client's state goes on as
  -- the table of states says, and must do so where the table leaves no choice; if not, it stays. All
  -- segments that the client has buffered are still from its port, and the clients at the other ports
  -- are as they were.
  pub receive_segment-HasState :
      HasState conn.clients seg.source_port_address
        (Next
          (decode_flags seg.flags)
          (seg.destination_port_address == conn.source_port
            && accepts (decode_flags seg.flags) client seg)
          client.state)
        (receive_segment F now conn seg)
  receive_segment-HasState = dispatched (decode_flags seg.flags) refl
