-- ===== src/Tcp/Connection/Stream.antt =====
-- What the loop over the buffered segments writes, when every segment holds a part of one stream.
use full_stack_shinfeld.Common.{
  ℕ, zero, suc, ◌+◌, ◌-◌, ◌^◌, ◌≤◌, ◌<◌, ◌≡◌, inl, inr, sym, ap, ap₂, ◌∙◌, ◌++◌, List, Option, none,
  some, length, slice, slice-append, arith, Bool-cases, Option-cases,
}
use full_stack_shinfeld.Common.Bits.{u32}
use full_stack_shinfeld.Tcp.MessageBuffer
use full_stack_shinfeld.Tcp.MessageBuffer.{MessageBuffer}
use full_stack_shinfeld.Tcp.MessageBuffer.Laws.{Holds, find-Holds, erase-Holds}
use full_stack_shinfeld.Tcp.Segment.{Segment}
use full_stack_shinfeld.Tcp.Client.{Client}
use full_stack_shinfeld.Tcp.Client.Sent.{write_file}
use full_stack_shinfeld.Tcp.Connection.Receiving.{Reassembled, deliver, reassemble, receive_data}
use full_stack_shinfeld.Tcp.Connection.Reassembly.{
  is_data, reassemble-zero, reassemble-none, reassemble_more, reassemble_other, after_data,
}

abbrev pub IsFrom : ℕ → Option Segment → Type 0
IsFrom port none = Unit
IsFrom port (some s) = s.source_port_address ≡ port

-- A stream of bytes whose first byte has the sequence number `first`; no number wraps.
module _ (stream : List ℕ) (first port : ℕ) where
  -- A segment of the peer at the port, whose data is a part of the stream at this number.
  abbrev pub IsPart : ℕ → Segment → Type 0
  IsPart seq s =
      (first ≤ seq)
      × (seq - first + length s.payload ≤ length stream)
      × (s.payload ≡ slice stream (seq - first) (seq - first + length s.payload))
      × (s.source_port_address ≡ port)

  -- Each buffered segment is a part of the stream, at the number under which it is kept.
  abbrev pub HasParts : MessageBuffer → Type 0
  HasParts = Holds IsPart

  -- What is written is the stream up to a sequence number.
  pub record IsPrefixTo (seq : ℕ) (file : List ℕ) (buffer : MessageBuffer) : Type 0 where
    pub from_first : first ≤ seq
    pub inside : seq - first ≤ length stream
    pub written : file ≡ slice stream 0 (seq - first)
    pub parts : HasParts buffer

module _ (stream : List ℕ) (first port : ℕ) where
  erase-IsPrefixTo :
      (seq : ℕ) (file : List ℕ) (b : MessageBuffer)
      → IsPrefixTo stream first port seq file b
      → IsPrefixTo stream first port seq file (MessageBuffer.erase seq b)
  erase-IsPrefixTo seq file b h = record {
    from_first = h.from_first;
    inside = h.inside;
    written = h.written;
    parts = erase-Holds (IsPart stream first port) seq b h.parts;
  }

module _ (stream : List ℕ) (first port : ℕ) (fits : first + length stream < 2 ^ 32) where
  -- A part of the stream behind a prefix gives a longer one.
  append-IsPrefixTo :
      (seq : ℕ) (file : List ℕ) (b : MessageBuffer) (s : Segment)
      → IsPrefixTo stream first port seq file b
      → IsPart stream first port seq s
      → IsPrefixTo stream first port (u32 (seq + length s.payload)) (file ++ s.payload) b
  append-IsPrefixTo seq file b s h p =
      let next : u32 (seq + length s.payload) ≡ seq + length s.payload = omega (arith, fits, p) in
      let behind : seq + length s.payload - first ≡ seq - first + length s.payload =
        omega (arith, p) in
      rw next (record {
        from_first = omega (arith, p);
        inside = omega (arith, p);
        written =
            ap₂ ◌++◌ h.written p.2
            ∙ slice-append 0 (seq - first) (seq - first + length s.payload) stream (omega arith)
                (omega arith)
            ∙ ap (slice stream 0) (sym behind);
        parts = h.parts;
      })

module _ {D : Type 0} (stream : List ℕ) (first port : ℕ)
    (fits : first + length stream < 2 ^ 32) where
  -- The loop stands at a prefix of the stream, and what it took out came from the peer; the client is
  -- that of the peer.
  abbrev pub StandsAt : Reassembled D → Type 0
  StandsAt r =
      IsPrefixTo stream first port r.next_seq r.client.file r.client.message_buffer
      × IsFrom port r.last
      × (r.client.port ≡ port)

  reassemble-StandsAt : (fuel : ℕ) (r : Reassembled D) → StandsAt r → StandsAt (reassemble fuel r)
  unfolding deliver write_file
  reassemble-StandsAt zero r h = rw (reassemble-zero r) h
  reassemble-StandsAt (suc fuel) r h =
      elim (Option-cases (MessageBuffer.find r.next_seq r.client.message_buffer)) [
        | inl e ↦ rw (reassemble-none (suc fuel) r e) h
        | inr (s, e) ↦
            let part =
              find-Holds (IsPart stream first port) r.next_seq r.client.message_buffer s h.0.parts
                e in
            let erased =
              erase-IsPrefixTo stream first port r.next_seq r.client.file r.client.message_buffer
                h.0 in
            elim (Bool-cases (is_data s)) [
              | inl t ↦ rw (reassemble_more fuel r s e t) (
                  reassemble-StandsAt fuel (after_data r s) (
                    append-IsPrefixTo stream first port fits r.next_seq r.client.file _ s erased
                        part,
                    part.3,
                    h.2,
                  ))
              | inr t ↦ rw (reassemble_other fuel r s e t) (erased, part.3, h.2)
            ]
      ]

  -- Data in order makes the written prefix longer, also by the buffered segments that follow it.
  pub receive_data-StandsAt :
      (client : Client D) (seg : Segment)
      → IsPrefixTo stream first port seg.sequence_number client.file client.message_buffer
      → IsPart stream first port seg.sequence_number seg
      → client.port ≡ port
      → StandsAt (receive_data client seg)
  unfolding receive_data deliver write_file
  receive_data-StandsAt client seg h p own = reassemble-StandsAt _ _ (
    append-IsPrefixTo stream first port fits seg.sequence_number client.file client.message_buffer
        seg h p,
    tt,
    own,
  )
