-- ===== src/Tcp/Connection/Reassembly.antt =====
-- The loop of `Connection::communicate` that takes out of order segments back from the buffer.
use full_stack_shinfeld.Common.{
  ℕ, zero, suc, ◌+◌, ◌≤◌, ◌≡◌, ◌⊎◌, inl, inr, refl, sym, ◌∙◌, ◌++◌, ◌&&◌, Bool, true, false, List,
  [], ◌∷◌, none, some, ◌==◌, ltb, length, length-append, arith, Bool-cases, append_assoc,
  append-nil, Option-cases,
}
use full_stack_shinfeld.Common.Bits.{u32}
use full_stack_shinfeld.Tcp.MessageBuffer
use full_stack_shinfeld.Tcp.MessageBuffer.{MessageBuffer, find, erase}
use full_stack_shinfeld.Tcp.Segment.{Segment}
use full_stack_shinfeld.Tcp.Client.Sent.{pop_item_message_buffer, write_file}
use full_stack_shinfeld.Tcp.Connection.{ack_flag}
use full_stack_shinfeld.Tcp.Connection.Receiving.{Reassembled, deliver, reassemble}

pub concat : List (List ℕ) → List ℕ
concat [] = []
concat (p ∷ ps) = p ++ concat ps

-- A segment that carries data.
abbrev pub is_data : Segment → Bool
is_data s = s.flags == ack_flag && ltb 0 (length s.payload)

-- Payloads that the buffer holds one behind the other, from a sequence number on; a segment is used
-- once.
pub Continues : MessageBuffer → ℕ → List (List ℕ) → Type 0
Continues b seq [] = Unit
Continues b seq (p ∷ ps) =
    ((s : Segment) × (MessageBuffer.find seq b ≡ some s) × (is_data s ≡ true) × (s.payload ≡ p))
    × Continues (MessageBuffer.erase seq b) (u32 (seq + length p)) ps

length-erase :
    (seq : ℕ) (b : MessageBuffer) (s : Segment)
    → MessageBuffer.find seq b ≡ some s
    → suc (length (MessageBuffer.erase seq b)) ≡ length b
unfolding MessageBuffer.find MessageBuffer.erase
length-erase seq [] s e = ground arith
length-erase seq ((k, t) ∷ rest) s e = ground (arith, length-erase seq rest s)

concat-single :
    (p : List ℕ) (ps : List (List ℕ)) → length (concat (p ∷ ps)) ≡ length p + length (concat ps)
unfolding concat
concat-single p ps = length-append p (concat ps)

empty_find : (seq : ℕ) (b : MessageBuffer) → length b ≤ 0 → MessageBuffer.find seq b ≡ none
unfolding MessageBuffer.find
empty_find seq [] h = refl
empty_find seq (x ∷ rest) h = absurd (omega arith)

-- What a run of the loop from `r` to `r'` did.
pub record IsInOrder {D : Type 0} (r r' : Reassembled D) : Type 0 where
  pub payloads : List (List ℕ)
  pub continues : Continues r.client.message_buffer r.next_seq payloads
  pub received : r'.client.received_data ≡ r.client.received_data ++ payloads
  pub written : r'.client.file ≡ r.client.file ++ concat payloads
  pub next : u32 r'.next_seq ≡ u32 (r.next_seq + length (concat payloads))
  pub stopped :
      (MessageBuffer.find r'.next_seq r'.client.message_buffer ≡ none)
      ⊎ ((s : Segment) × (r'.last ≡ some s) × (is_data s ≡ false))

module _ {D : Type 0} where
  pub reassemble-zero : (r : Reassembled D) → reassemble zero r ≡ r
  unfolding reassemble
  reassemble-zero r = refl

  pub reassemble-none :
      (fuel : ℕ) (r : Reassembled D)
      → MessageBuffer.find r.next_seq r.client.message_buffer ≡ none
      → reassemble fuel r ≡ r
  unfolding reassemble pop_item_message_buffer
  reassemble-none zero r e = refl
  reassemble-none (suc fuel) r e = ground (arith, e)

  abbrev pub after_data : Reassembled D → Segment → Reassembled D
  after_data r s = record {
    client =
        deliver
          (record (r.client) {
            message_buffer = MessageBuffer.erase r.next_seq r.client.message_buffer;
          })
          s.payload;
    next_seq = u32 (r.next_seq + length s.payload);
    data_written = length s.payload;
    last = some s;
  }

  pub reassemble_more :
      (fuel : ℕ) (r : Reassembled D) (s : Segment)
      → MessageBuffer.find r.next_seq r.client.message_buffer ≡ some s
      → is_data s ≡ true
      → reassemble (suc fuel) r ≡ reassemble fuel (after_data r s)
  unfolding reassemble pop_item_message_buffer
  reassemble_more fuel r s e test = ground (arith, e, test)

  pub reassemble_other :
      (fuel : ℕ) (r : Reassembled D) (s : Segment)
      → MessageBuffer.find r.next_seq r.client.message_buffer ≡ some s
      → is_data s ≡ false
      → reassemble (suc fuel) r ≡ record {
        client = record (r.client) {
          message_buffer = MessageBuffer.erase r.next_seq r.client.message_buffer;
        };
        next_seq = r.next_seq;
        data_written = r.data_written;
        last = some s;
      }
  unfolding reassemble pop_item_message_buffer
  reassemble_other fuel r s e test = ground (arith, e, test)

  stop_none :
      (r : Reassembled D)
      → MessageBuffer.find r.next_seq r.client.message_buffer ≡ none
      → IsInOrder r r
  unfolding Continues concat
  stop_none r e = record {
    payloads = [];
    continues = tt;
    received = sym (append-nil _);
    written = sym (append-nil _);
    next = omega arith;
    stopped = inl e;
  }

  stop_other :
      (r : Reassembled D) (s : Segment) (b : MessageBuffer)
      → is_data s ≡ false
      → IsInOrder r (record {
        client = record (r.client) { message_buffer = b };
        next_seq = r.next_seq;
        data_written = r.data_written;
        last = some s;
      })
  unfolding Continues concat
  stop_other r s b e = record {
    payloads = [];
    continues = tt;
    received = sym (append-nil _);
    written = sym (append-nil _);
    next = omega arith;
    stopped = inr (s, refl, e);
  }

  one_more :
      (r r' : Reassembled D) (s : Segment)
      → MessageBuffer.find r.next_seq r.client.message_buffer ≡ some s
      → is_data s ≡ true
      → IsInOrder (after_data r s) r'
      → IsInOrder r r'
  unfolding Continues concat deliver write_file
  one_more r r' s e test behind = record {
    payloads = s.payload ∷ behind.payloads;
    continues = ((s, e, test, refl), behind.continues);
    received =
        behind.received ∙ append_assoc r.client.received_data (s.payload ∷ []) behind.payloads;
    written = behind.written ∙ append_assoc r.client.file s.payload (concat behind.payloads);
    next = omega (arith, behind.next, length-append s.payload (concat behind.payloads));
    stopped = behind.stopped;
  }

  -- With at least as much fuel as the buffer has segments, the loop hands on, and writes, payloads
  -- of buffered data segments, each of which starts where the one before it ends; the next sequence
  -- number moves by their length, modulo 2 ^ 32; and it stops only where the buffer has no segment
  -- that starts there, or one that is no data.
  pub reassemble-IsInOrder :
      (fuel : ℕ) (r : Reassembled D)
      → length r.client.message_buffer ≤ fuel
      → IsInOrder r (reassemble fuel r)
  unfolding deliver write_file
  reassemble-IsInOrder zero r h =
      let nothing = empty_find r.next_seq r.client.message_buffer h in
      rw (reassemble-none zero r nothing) (stop_none r nothing)
  reassemble-IsInOrder (suc fuel) r h =
      elim (Option-cases (MessageBuffer.find r.next_seq r.client.message_buffer)) [
        | inl e ↦ rw (reassemble-none (suc fuel) r e) (stop_none r e)
        | inr (s, e) ↦ elim (Bool-cases (is_data s)) [
          | inl t ↦ rw (reassemble_more fuel r s e t) (
              one_more r _ s e t (
                reassemble-IsInOrder fuel (after_data r s)
                  (omega (arith, length-erase r.next_seq r.client.message_buffer s e))))
          | inr t ↦ rw (reassemble_other fuel r s e t) (stop_other r s _ t)
        ]
      ]
