-- ===== src/Tcp/Connection/Loop/Ending.antt =====
-- The end of `communicate` of backend/TCP/src/Connection.cpp: what lets `disconnect` return.
use full_stack_shinfeld.Common.{
  ℕ, ◌≡◌, refl, ◌∙◌, ◌++◌, Bool, true, false, List, [], ◌∷◌, some, is_empty, arith, All, All-weaken,
  Bool-cases, inl, inr, ◌==◌, sym, ap, append-nil, append_assoc,
}
use full_stack_shinfeld.Tcp.ClientMap
use full_stack_shinfeld.Tcp.Flags.{State}
use full_stack_shinfeld.Tcp.Client.{Client, Doubles}
use full_stack_shinfeld.Tcp.Connection.{Connection}
use full_stack_shinfeld.Tcp.Connection.Loop.{
  sweep, close_one, close_clients, communicate_round, receive_round, input_round, idle_round,
  is_time_wait, is_closed_state,
}

-- Every client has sent its FIN and is CLOSED.
unfoldable pub IsGone : {D : Type 0} → Connection D → Type 0
IsGone {D = D} conn =
    (port : ℕ) (client : Client D)
    → ClientMap.find port conn.clients ≡ some client
    → (client.is_fin_sent ≡ true) × (client.state ≡ State.closed)

module _ {D : Type 0} (F : Doubles D) where
  erase_first :
      (port : ℕ) (client : Client D) (rest : List (ℕ × Client D))
      → ClientMap.erase port ((port, client) ∷ rest) ≡ rest
  unfolding ClientMap.erase
  erase_first port client rest = ground arith

  later :
      (port : ℕ) (client : Client D) (rest : List (ℕ × Client D)) (q : ℕ) (c : Client D)
      → ClientMap.find q rest ≡ some c
      → (c' : Client D) × (ClientMap.find q ((port, client) ∷ rest) ≡ some c')
  unfolding ClientMap.find
  later port client rest q c e = elim (Bool-cases (port == q)) [
    | inl t ↦ (client, ground (arith, t))
    | inr t ↦ (c, ground (arith, t, e))
  ]

  keys_found :
      (clients : List (ℕ × Client D))
      → All
          (λ port. (c : Client D) × (ClientMap.find port clients ≡ some c))
          (ClientMap.keys clients)
  unfolding ClientMap.find ClientMap.keys
  keys_found [] = tt
  keys_found ((port, client) ∷ rest) = (
    (client, ground arith),
    All-weaken (ClientMap.keys rest) (λ q found. later port client rest q found.0 found.1)
        (keys_found rest),
  )

  -- The loop that collects, when every client goes.
  sweep-All :
      (one : Connection D → ℕ → Connection D × Bool) (ports gone : List ℕ) (conn : Connection D)
      → All (λ port. one conn port ≡ (conn, true)) ports
      → sweep F one ports conn gone ≡ sweep F one [] conn (gone ++ ports)
  unfolding sweep
  sweep-All one [] gone conn h = ap (λ l. sweep F one [] conn l) (sym (append-nil gone))
  sweep-All one (port ∷ ports) gone conn h = rw (h.0) (
      sweep-All one ports (gone ++ port ∷ []) conn h.1
      ∙ ap (λ l. sweep F one [] conn l) (append_assoc gone (port ∷ []) ports))

  sweep-keys :
      (one : Connection D → ℕ → Connection D × Bool) (conn : Connection D)
      (clients : List (ℕ × Client D))
      → sweep F one [] (record conn { clients = clients }) (ClientMap.keys clients)
        ≡ record conn { clients = [] }
  unfolding sweep ClientMap.keys
  sweep-keys one conn [] = refl
  sweep-keys one conn ((port, client) ∷ rest) =
      ap (λ m. sweep F one [] (record conn { clients = m }) (ClientMap.keys rest))
        (erase_first port client rest)
      ∙ sweep-keys one conn rest

  close_one-gone :
      (now : ℕ) (conn : Connection D) (port : ℕ) (client : Client D)
      → ClientMap.find port conn.clients ≡ some client
      → client.is_fin_sent ≡ true
      → client.state ≡ State.closed
      → close_one F now conn port ≡ (conn, true)
  unfolding close_one is_time_wait is_closed_state
  close_one-gone now conn port client e fin closed = ground (arith, e, fin, closed)

  close_clients-gone :
      (now : ℕ) (conn : Connection D)
      → is_empty conn.clients ≡ false
      → IsGone conn
      → close_clients F now conn ≡ record conn { clients = [] }
  unfolding close_clients IsGone
  close_clients-gone now conn some_client h = rw some_client (
      sweep-All (close_one F now) (ClientMap.keys conn.clients) [] conn (
        All-weaken (ClientMap.keys conn.clients)
          (λ port found.
            let gone = h port found.0 found.1 in
            close_one-gone now conn port found.0 found.1 gone.0 gone.1)
          (keys_found conn.clients))
      ∙ sweep-keys (close_one F now) conn conn.clients)

  quiet_round :
      (now : ℕ) (conn : Connection D)
      → conn.time_to_close ≡ true
      → conn.receiver_queue ≡ []
      → conn.input_queue ≡ []
      → communicate_round F now conn ≡ close_clients F now conn
  unfolding communicate_round receive_round input_round idle_round
  quiet_round now conn closing received input = simp (received, input, closing) refl

  -- When it is time to close, nothing arrives, and every client has sent its FIN and is CLOSED, then
  -- after two rounds no client is left, the loop ends, and the flag that `disconnect` waits for is set.
  pub rounds-close_down :
      (t1 t2 : ℕ) (conn : Connection D)
      → conn.time_to_close ≡ true
      → conn.receiver_queue ≡ []
      → conn.input_queue ≡ []
      → is_empty conn.clients ≡ false
      → IsGone conn
      → communicate_round F t2 (communicate_round F t1 conn)
        ≡ record conn { clients = []; running = false; can_close_down = true }
  unfolding close_clients
  rounds-close_down t1 t2 conn closing received input some_client h =
      rw (quiet_round t1 conn closing received input ∙ close_clients-gone t1 conn some_client h)
        (quiet_round t2 (record conn { clients = [] }) closing received input)
