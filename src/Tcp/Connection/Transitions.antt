-- ===== src/Tcp/Connection/Transitions.antt =====
-- The state of a client through `messageHandler` and the cases of `communicate` in
-- backend/TCP/src/Connection.cpp.
use mathlib.Core.Path.{subst}
use full_stack_shinfeld.Common.{
  List, refl, ℕ, zero, suc, ◌≡◌, inl, inr, sym, ◌∙◌, true, ltb, arith, Bool-cases, Option-cases,
}
use full_stack_shinfeld.Tcp.MessageBuffer
use full_stack_shinfeld.Tcp.MessageBuffer.{MessageBuffer}
use full_stack_shinfeld.Tcp.MessageBuffer.Laws.{find-Holds, erase-Holds, insert-Holds}
use full_stack_shinfeld.Tcp.Flags.{State}
use full_stack_shinfeld.Tcp.Segment.{Segment}
use full_stack_shinfeld.Tcp.Client.{Client}
use full_stack_shinfeld.Tcp.Client.Sent.{check_front_all, set_item_message_buffer, write_file}
use full_stack_shinfeld.Tcp.Connection.{Connection, update_client}
use full_stack_shinfeld.Tcp.Connection.Sending.{is_closing, take_ack, message_handler}
use full_stack_shinfeld.Tcp.Connection.Receiving.{Reassembled, deliver, reassemble, receive_data}
use full_stack_shinfeld.Tcp.Connection.Reassembly.{
  is_data, reassemble-zero, reassemble-none, reassemble_more, reassemble_other, after_data,
}
use full_stack_shinfeld.Tcp.Connection.Stream.{IsFrom}
use full_stack_shinfeld.Tcp.Connection.Traversal.{handler_found, if-kept}
use full_stack_shinfeld.Tcp.Connection.States.{
  Ends, in_order-HasState, FromPort, HasState, update_client-HasState, weaken,
}

is_closing-closing : (s : State) → is_closing s ≡ true → s ≡ State.closing
is_closing-closing s e = ground arith

module _ {D : Type 0} {base : List (ℕ × Client D)} (port : ℕ) (P : State → Type 0) where
  pub changed-HasState :
      (conn : Connection D) (h : HasState base port P conn) (f : Client D → Client D)
      → (f h.current).port ≡ h.current.port
      → (f h.current).state ≡ h.current.state
      → FromPort port (f h.current).message_buffer
      → HasState base port P (update_client conn port f)
  changed-HasState conn h f own same from =
      update_client-HasState port P conn h.current f h.found (own ∙ h.own_port)
        (subst P (sym same) h.its_state) from h.others

  -- A segment that is kept for later.
  pub buffered-HasState :
      (conn : Connection D) (f : Client D → Client D) (seg : Segment)
      (h : HasState base port P conn)
      → seg.source_port_address ≡ port
      → (f h.current).port ≡ h.current.port
      → (f h.current).state ≡ h.current.state
      → (f h.current).message_buffer ≡ h.current.message_buffer
      → HasState base port P
          (update_client conn port (λ c. set_item_message_buffer (f c) seg.sequence_number seg))
  unfolding set_item_message_buffer
  buffered-HasState conn f seg h from own same buffer = changed-HasState conn h _ own same (
      rw buffer (
        insert-Holds (λ seq s. s.source_port_address ≡ port) seg.sequence_number seg
          h.current.message_buffer h.from_port from))

  take_ack-HasState :
      (conn : Connection D) (seg : Segment)
      → HasState base port P conn
      → HasState base port P (take_ack conn port seg)
  unfolding take_ack check_front_all
  take_ack-HasState conn seg h = changed-HasState conn h _ refl refl h.from_port

module _ {D : Type 0} {base : List (ℕ × Client D)} (P Q : State → Type 0)
    (stays : (s : State) → P s → Q s) (ends : Ends P Q) where
  own_handler-HasState :
      (conn : Connection D) (seg : Segment) (data_written : ℕ)
      → HasState base seg.source_port_address P conn
      → HasState base seg.source_port_address Q (message_handler conn seg data_written)
  own_handler-HasState conn seg data_written h =
      let port = seg.source_port_address in
      let acked = take_ack conn port seg in
      let k = take_ack-HasState port P conn seg h in
      rw (handler_found conn h.current seg data_written h.found) (
        if-kept (HasState base port Q) _ _ _
          (weaken stays (buffered-HasState port P acked (λ c. c) seg k refl refl refl refl))
          (in_order-HasState port P Q stays ends acked seg data_written k))

  pub handler-HasState :
      (port : ℕ) (conn : Connection D) (seg : Segment) (data_written : ℕ)
      → seg.source_port_address ≡ port
      → HasState base port P conn
      → HasState base port Q (message_handler conn seg data_written)
  handler-HasState port conn seg data_written e h =
      subst
        (λ q. HasState base q P conn → HasState base q Q (message_handler conn seg data_written)) e
        (own_handler-HasState conn seg data_written) h

-- A segment ahead of the client is kept for later, and leaves the state as it is.
module _ {D : Type 0} {base : List (ℕ × Client D)} (P : State → Type 0) where
  own_ahead-HasState :
      (conn : Connection D) (seg : Segment) (data_written : ℕ)
      (h : HasState base seg.source_port_address P conn)
      → ltb h.current.expected_ack seg.sequence_number ≡ true
      → HasState base seg.source_port_address P (message_handler conn seg data_written)
  own_ahead-HasState conn seg data_written h ahead =
      let port = seg.source_port_address in
      let k = take_ack-HasState port P conn seg h in
      rw (handler_found conn h.current seg data_written h.found, ahead)
        (buffered-HasState port P (take_ack conn port seg) (λ c. c) seg k refl refl refl refl)

  pub ahead-HasState :
      (port : ℕ) (conn : Connection D) (seg : Segment) (data_written : ℕ)
      → seg.source_port_address ≡ port
      → (h : HasState base port P conn) → ltb h.current.expected_ack seg.sequence_number ≡ true
      → HasState base port P (message_handler conn seg data_written)
  ahead-HasState port conn seg data_written e =
      subst
        (λ q.
          (h : HasState base q P conn)
          → ltb h.current.expected_ack seg.sequence_number ≡ true
          → HasState base q P (message_handler conn seg data_written))
        e (own_ahead-HasState conn seg data_written)

module _ {D : Type 0} where
  -- What the loop over the buffered segments keeps of the client.
  abbrev IsOwn : ℕ → Client D → Reassembled D → Type 0
  IsOwn port client r =
      (r.client.port ≡ client.port)
      × (r.client.state ≡ client.state)
      × FromPort port r.client.message_buffer
      × IsFrom port r.last

  reassemble-IsOwn :
      (port : ℕ) (client : Client D) (fuel : ℕ) (r : Reassembled D)
      → IsOwn port client r
      → IsOwn port client (reassemble fuel r)
  unfolding deliver write_file
  reassemble-IsOwn port client zero r h = rw (reassemble-zero r) h
  reassemble-IsOwn port client (suc fuel) r h =
      let From : ℕ → Segment → Type 0 = λ seq s. s.source_port_address ≡ port in
      elim (Option-cases (MessageBuffer.find r.next_seq r.client.message_buffer)) [
        | inl e ↦ rw (reassemble-none (suc fuel) r e) h
        | inr (s, e) ↦
            let from = find-Holds From r.next_seq r.client.message_buffer s h.2 e in
            let erased = erase-Holds From r.next_seq r.client.message_buffer h.2 in
            elim (Bool-cases (is_data s)) [
              | inl t ↦
                  rw (reassemble_more fuel r s e t)
                    (reassemble-IsOwn port client fuel (after_data r s) (h.0, h.1, erased, from))
              | inr t ↦ rw (reassemble_other fuel r s e t) (h.0, h.1, erased, from)
            ]
      ]

  pub receive_data-IsOwn :
      (port : ℕ) (client : Client D) (seg : Segment)
      → FromPort port client.message_buffer
      → IsOwn port client (receive_data client seg)
  unfolding receive_data deliver write_file
  receive_data-IsOwn port client seg from = reassemble-IsOwn port client _ _ (refl, refl, from, tt)
