-- ===== src/Tcp/SocketHandler/SentBytes.antt =====
-- The bytes that the segments of one call of `sendMessages` get from the send buffer.
use full_stack_shinfeld.Common.{
  ℕ, ◌-◌, ◌^◌, ◌≤◌, ◌<◌, ◌≡◌, sym, ap, ◌∙◌, ◌++◌, Bool, List, [], ◌∷◌, none, some, length, slice,
  slice-append, slice_none, arith,
}
use full_stack_shinfeld.Tcp.ClientMap
use full_stack_shinfeld.Tcp.Segment.{set_payload}
use full_stack_shinfeld.Tcp.Client.{Client}
use full_stack_shinfeld.Tcp.Connection.{Connection, Outgoing, max_data_size}
use full_stack_shinfeld.Tcp.Connection.Sending.{send_loop}
use full_stack_shinfeld.Tcp.Connection.Tiling.{Cursor, Tiles, cursor_of, send_loop-IsTiled}
use full_stack_shinfeld.Tcp.SocketHandler.{with_data}
use full_stack_shinfeld.Tcp.SocketHandler.Delivery.{with_data-slice}

-- The data that `send` puts into the entries of the sender's queue, in their order.
pub sent_data : List ℕ → List Outgoing → List ℕ
sent_data buffer [] = []
sent_data buffer (e ∷ rest) =
    elim (with_data buffer e.segment) [ none ↦ [] | some s ↦ s.payload ] ++ sent_data buffer rest

Tiles-le : (out : List Outgoing) (from to : Cursor) → Tiles from out to → from.start ≤ to.start
unfolding Tiles
Tiles-le [] from to e = omega (arith, ap (λ (c : Cursor). c.start) e)
Tiles-le (x ∷ rest) from to (end, s, f, q, h, k, l, behind) =
    omega (arith, Tiles-le rest _ to behind)

sent_data-Tiles :
    (buffer : List ℕ) (out : List Outgoing) (from to : Cursor)
    → Tiles from out to
    → to.start ≤ length buffer
    → sent_data buffer out ≡ slice buffer from.start to.start
unfolding sent_data Tiles set_payload
sent_data-Tiles buffer [] from to e inside = rw e (sym (slice_none to.start buffer))
sent_data-Tiles buffer (x ∷ rest) from to (end, s, f, q, h, k, l, behind) inside =
    let after : end ≤ to.start = Tiles-le rest _ to behind in
    rw
      (
        with_data-slice buffer x.segment from.start end s f h (omega arith),
        sent_data-Tiles buffer rest _ to behind inside,
      )
      (slice-append from.start end to.start buffer (omega arith) after)

module _ {D : Type 0} where
  -- The loop of `sendMessages`, with at least as much fuel as the window leaves bytes, appends
  -- segments to the sender's queue that `send` fills with exactly the bytes of the send buffer from
  -- the client's last byte to its new one, in order, none left out and none twice; the new one lies
  -- in the buffer and is not before the old one. The client is in the map under its own port, the
  -- available room is a 16-bit number, and the buffer is at least 1000 bytes smaller than 2 ^ 32 and
  -- not smaller than what was sent.
  pub send_loop-sent_data :
      (fuel : ℕ) (conn : Connection D) (client : Client D) (port available : ℕ) (sent_before : Bool)
      → ClientMap.find port conn.clients ≡ some client
      → client.port ≡ port
      → available ≤ fuel
      → available < 2 ^ 16
      → length conn.send_buffer < 2 ^ 32 - max_data_size
      → client.last_byte_sent ≤ length conn.send_buffer
      → let conn' = (send_loop fuel conn port available sent_before).0 in
        (out : List Outgoing) × (after : Client D) × (conn'.sender_queue ≡ conn.sender_queue ++ out)
        × (ClientMap.find port conn'.clients ≡ some after)
        × (client.last_byte_sent ≤ after.last_byte_sent)
        × (after.last_byte_sent ≤ length conn.send_buffer)
        × (sent_data conn.send_buffer out
            ≡ slice conn.send_buffer client.last_byte_sent after.last_byte_sent)
  send_loop-sent_data fuel conn client port available sent_before e own enough small fits ahead =
      let t =
        send_loop-IsTiled fuel conn client port available sent_before e own enough small fits
          ahead in
      let further = Tiles-le t.sent (cursor_of client available) t.to t.tiles in
      (
        t.sent,
        t.after,
        t.queued,
        t.found,
        omega (arith, further, t.at_start),
        omega (arith, t.inside, t.at_start),
        sent_data-Tiles conn.send_buffer t.sent (cursor_of client available) t.to t.tiles t.inside
            ∙ ap (slice conn.send_buffer client.last_byte_sent) (sym t.at_start),
      )
