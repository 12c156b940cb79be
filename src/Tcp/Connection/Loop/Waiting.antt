-- ===== src/Tcp/Connection/Loop/Waiting.antt =====
-- Rounds of `communicate` of backend/TCP/src/Connection.cpp in which nothing arrives, when it is time to
-- close.
use full_stack_shinfeld.Common.{
  ℕ, ◌≡◌, inl, inr, refl, Bool, true, false, List, [], ◌∷◌, some, is_empty, arith, Option-cases,
}
use full_stack_shinfeld.Tcp.ClientMap
use full_stack_shinfeld.Tcp.Client.{Client, Doubles}
use full_stack_shinfeld.Tcp.Connection.{Connection}
use full_stack_shinfeld.Tcp.Connection.Loop.{
  sweep, close_one, close_clients, communicate_round, receive_round, input_round, idle_round,
  is_time_wait, is_closed_state,
}

-- Every client has sent its FIN, and neither waits for the end in TIME_WAIT nor is CLOSED.
unfoldable pub IsLeaving : {D : Type 0} → Connection D → Type 0
IsLeaving {D = D} conn =
    (port : ℕ) (client : Client D)
    → ClientMap.find port conn.clients ≡ some client
    → (client.is_fin_sent ≡ true)
      × (is_time_wait client.state ≡ false)
      × (is_closed_state client.state ≡ false)

module _ {D : Type 0} (F : Doubles D) where
  sweep_nothing :
      (one : Connection D → ℕ → Connection D × Bool) (ports : List ℕ) (conn : Connection D)
      → ((port : ℕ) → one conn port ≡ (conn, false))
      → sweep F one ports conn [] ≡ conn
  unfolding sweep
  sweep_nothing one [] conn h = refl
  sweep_nothing one (port ∷ ports) conn h = rw (sweep, h port) (sweep_nothing one ports conn h)

  close_one-IsLeaving :
      (now : ℕ) (conn : Connection D) (port : ℕ)
      → IsLeaving conn
      → close_one F now conn port ≡ (conn, false)
  unfolding close_one IsLeaving
  close_one-IsLeaving now conn port h = elim (Option-cases (ClientMap.find port conn.clients)) [
    | inl e ↦ ground (arith, e)
    | inr (c, e) ↦ let l = h port c e in ground (arith, e, l.0, l.1, l.2)
  ]

  round-IsLeaving :
      (now : ℕ) (conn : Connection D)
      → conn.time_to_close ≡ true
      → conn.receiver_queue ≡ []
      → conn.input_queue ≡ []
      → is_empty conn.clients ≡ false
      → IsLeaving conn
      → communicate_round F now conn ≡ conn
  unfolding communicate_round receive_round input_round idle_round close_clients
  round-IsLeaving now conn closing none_received no_input some_client h =
      simp (none_received, no_input, closing, some_client)
        (sweep_nothing (close_one F now) (ClientMap.keys conn.clients) conn
          (λ port. close_one-IsLeaving now conn port h))

  unfoldable pub communicate_rounds : Connection D → List ℕ → Connection D
  communicate_rounds conn [] = conn
  communicate_rounds conn (now ∷ times) = communicate_rounds (communicate_round F now conn) times

  -- When it is time to close, every client has sent its FIN and none is in TIME_WAIT or CLOSED, then
  -- rounds in which nothing arrives change nothing, however many they are and at whichever times: no
  -- FIN is sent again, and the flag that `disconnect` waits for is not set.
  pub rounds-IsLeaving :
      (conn : Connection D) (times : List ℕ)
      → conn.time_to_close ≡ true
      → conn.receiver_queue ≡ []
      → conn.input_queue ≡ []
      → is_empty conn.clients ≡ false
      → IsLeaving conn
      → communicate_rounds conn times ≡ conn
  unfolding communicate_rounds
  rounds-IsLeaving conn [] closing received input some_client h = refl
  rounds-IsLeaving conn (now ∷ times) closing received input some_client h =
      rw (communicate_rounds, round-IsLeaving now conn closing received input some_client h)
        (rounds-IsLeaving conn times closing received input some_client h)
