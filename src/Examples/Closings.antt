-- ===== src/Examples/Closings.antt =====
-- Two connections that end, a client that has buffered a segment and gets a FIN, and rounds of a
-- connection that is to close.
use full_stack_shinfeld.Common.{
  ◌&&◌, false, ℕ, ◌≡◌, refl, ◌∷◌, [], true, Bool-cases, inl, inr, ◌==◌, arith,
}
use full_stack_shinfeld.Tcp.ClientMap
use full_stack_shinfeld.Tcp.Flags.{State, decode_flags}
use full_stack_shinfeld.Tcp.Segment.{Segment, segment_of_payload}
use full_stack_shinfeld.Tcp.Client.{Client, new_client}
use full_stack_shinfeld.Tcp.Connection.{Connection, new_connection}
use full_stack_shinfeld.Tcp.Connection.Loop.{
  close_one, receive_segment, is_time_wait, is_closed_state,
}
use full_stack_shinfeld.Tcp.Connection.Parting.{IsClosed}
use full_stack_shinfeld.Tcp.Connection.Teardown.{farewell, teardown}
use full_stack_shinfeld.Tcp.Connection.Next.{Next, accepts}
use full_stack_shinfeld.Tcp.Connection.States.{HasState}
use full_stack_shinfeld.Tcp.Connection.Received.{receive_segment-HasState}
use full_stack_shinfeld.Tcp.Connection.Loop.{communicate_round}
use full_stack_shinfeld.Tcp.Connection.Loop.Ending.{IsGone, rounds-close_down}
use full_stack_shinfeld.Tcp.Connection.Loop.Waiting.{
  IsLeaving, communicate_rounds, rounds-IsLeaving,
}
use full_stack_shinfeld.Examples.Clients.{whole}

abbrev server_peer : Client ℕ
server_peer = new_client whole 8080 0x7f000001 1001 501 1001 State.established

abbrev browser_peer : Client ℕ
browser_peer = new_client whole 9090 0x0a000001 501 1001 501 State.established

abbrev ours : Connection ℕ
ours = record (new_connection 9090 0x0a000001) { clients = (8080, server_peer) ∷ [] }

abbrev theirs : Connection ℕ
theirs = record (new_connection 8080 0x7f000001) { clients = (9090, browser_peer) ∷ [] }

teardown_example :
    let after = farewell whole 1 2 3 4 5 (close_one whole 0 ours 8080).0 theirs in
    IsClosed (after.0) (after.1) 9090 8080
unfolding new_client new_connection ClientMap.find
teardown_example =
    teardown whole 0 1 2 3 4 5 ours theirs server_peer browser_peer
      (record {
        found = refl;
        own_port = refl;
        own_ip = refl;
        in_state = refl;
        all_sent = refl;
        no_fin = refl;
        nothing_queued = refl;
        nothing_received = refl;
      })
      (record {
        found = refl;
        own_port = refl;
        own_ip = refl;
        in_state = refl;
        all_sent = refl;
        no_fin = refl;
        nothing_queued = refl;
        nothing_received = refl;
      })
      (record { forth = refl; back = refl; acked = omega arith; no_wrap = omega arith })

-- A FIN with the expected number, and a segment with data that came before it, ahead of its turn.
abbrev their_fin : Segment
their_fin = segment_of_payload 8080 9090 501 1001 1 1000 0 0x0a000001 []

abbrev early : Segment
early = segment_of_payload 8080 9090 503 1001 16 1000 0 0x0a000001 (104 ∷ [])

abbrev holding : Client ℕ
holding = record server_peer { message_buffer = (503, early) ∷ [] }

abbrev holder : Connection ℕ
holder = record ours { clients = (8080, holding) ∷ [] }

receive_segment-HasState_example :
    HasState holder.clients 8080
      (Next
        (decode_flags 1)
        (9090 == 9090 && accepts (decode_flags 1) holding their_fin)
        State.established)
      (receive_segment whole 7 holder their_fin)
unfolding new_client new_connection ClientMap.find segment_of_payload
receive_segment-HasState_example =
    receive_segment-HasState whole 7 holder their_fin holding refl refl (refl, tt)

-- Ours once its FIN is made and sent, and while no answer arrives.
abbrev waiting_peer : Client ℕ
waiting_peer = record server_peer { state = State.fin_wait_1; is_fin_sent = true }

abbrev without_answer : Connection ℕ
without_answer = record (new_connection 9090 0x0a000001) {
  clients = (8080, waiting_peer) ∷ [];
  time_to_close = true;
}

waits_for_answer : IsLeaving without_answer
unfolding IsLeaving ClientMap.find new_connection new_client is_time_wait is_closed_state
waits_for_answer port client e = elim (Bool-cases (8080 == port)) [
  | inl t ↦ let same : waiting_peer ≡ client = ground (arith, e, t) in rw⁻¹ same (refl, refl, refl)
  | inr t ↦ absurd (ground (arith, e, t))
]

rounds-IsLeaving_example :
    communicate_rounds whole without_answer (20000 ∷ 40000 ∷ []) ≡ without_answer
unfolding new_connection
rounds-IsLeaving_example =
    rounds-IsLeaving whole without_answer (20000 ∷ 40000 ∷ []) refl refl refl refl waits_for_answer

-- Theirs at the end.
abbrev closed_peer : Client ℕ
closed_peer = record server_peer { state = State.closed; is_fin_sent = true }

abbrev at_the_end : Connection ℕ
at_the_end = record (new_connection 9090 0x0a000001) {
  running = true;
  clients = (8080, closed_peer) ∷ [];
  time_to_close = true;
}

at_the_end-IsGone : IsGone at_the_end
unfolding IsGone ClientMap.find new_connection new_client
at_the_end-IsGone port client e = elim (Bool-cases (8080 == port)) [
  | inl t ↦ let same : closed_peer ≡ client = ground (arith, e, t) in rw⁻¹ same (refl, refl)
  | inr t ↦ absurd (ground (arith, e, t))
]

rounds-close_down_example :
    communicate_round whole 8 (communicate_round whole 7 at_the_end)
    ≡ record at_the_end { clients = []; running = false; can_close_down = true }
unfolding new_connection
rounds-close_down_example =
    rounds-close_down whole 7 8 at_the_end refl refl refl refl at_the_end-IsGone
