-- ===== src/Tcp/Client/Accounting.antt =====
-- The total size of what was sent and is not acknowledged.
use full_stack_shinfeld.Common.{
  ℕ, ◌+◌, ◌^◌, ◌<◌, ◌≡◌, refl, ap, ◌++◌, List, [], ◌∷◌, some, All, ltb, lt→ltb, arith, Bool-cases,
  inl, inr,
}
use full_stack_shinfeld.Common.Bits.{u16}
use full_stack_shinfeld.Tcp.SegmentInfo.{SegmentInfo, Store, deref}
use full_stack_shinfeld.Tcp.Client.{Client}
use full_stack_shinfeld.Tcp.Client.Sent.{
  sent_size, without, acknowledge, push_message, pop_message, copy_front, check_front_all,
}

-- The sum of the sizes of the entries of a queue.
unfoldable pub sum_sizes : Store → List ℕ → ℕ
sum_sizes store [] = 0
sum_sizes store (p ∷ rest) = sent_size (deref store p) + sum_sizes store rest

sum_sizes-nil : (store : Store) → sum_sizes store [] ≡ 0
unfolding sum_sizes
sum_sizes-nil store = refl

sum_sizes-append :
    (store : Store) (q r : List ℕ)
    → sum_sizes store (q ++ r) ≡ sum_sizes store q + sum_sizes store r
unfolding sum_sizes
sum_sizes-append store [] r = omega arith
sum_sizes-append store (p ∷ rest) r = omega (arith, sum_sizes-append store rest r)

-- The total counts each entry of the queue once, modulo 2 ^ 16.
abbrev pub IsCounted : {D : Type 0} → Store → Client D → Type 0
IsCounted store c = c.total_size_of_messages_sent ≡ u16 (sum_sizes store c.messages_sent)

sent_size-lt : (info : SegmentInfo) → sent_size info < 2 ^ 16
unfolding sent_size
sent_size-lt info = omega arith

acknowledge_total :
    (store : Store) (ack_num : ℕ) (q : List ℕ) (total : ℕ)
    → u16 ((acknowledge store ack_num q total).1 + sum_sizes store q)
      ≡ u16 (total + sum_sizes store (acknowledge store ack_num q total).0)
unfolding acknowledge sum_sizes
acknowledge_total store ack_num [] total = refl
acknowledge_total store ack_num (p ∷ rest) total =
    let size = sent_size (deref store p) in
    let small = sent_size-lt (deref store p) in
    elim (Bool-cases (ltb (deref store p).sequence_number ack_num)) [
      | inl e ↦
          rw (e, acknowledge)
            (omega (arith, small, acknowledge_total store ack_num rest (without total size)))
      | inr e ↦ rw (e, acknowledge)
    ]

acknowledge_lt :
    (store : Store) (ack_num : ℕ) (q : List ℕ) (total : ℕ)
    → total < 2 ^ 16
    → (acknowledge store ack_num q total).1 < 2 ^ 16
unfolding acknowledge
acknowledge_lt store ack_num [] total h = h
acknowledge_lt store ack_num (p ∷ rest) total h =
    let size = sent_size (deref store p) in
    elim (Bool-cases (ltb (deref store p).sequence_number ack_num)) [
      | inl e ↦
          rw (e, acknowledge) (acknowledge_lt store ack_num rest (without total size) (omega arith))
      | inr e ↦ rw (e, acknowledge) h
    ]

-- When all that was sent lies below the number that is acknowledged, the queue is emptied.
abbrev pub AllBelow : Store → ℕ → List ℕ → Type 0
AllBelow store ack_num = All (λ p. (deref store p).sequence_number < ack_num)

acknowledge_all :
    (store : Store) (ack_num : ℕ) (q : List ℕ) (total : ℕ)
    → AllBelow store ack_num q
    → (acknowledge store ack_num q total).0 ≡ []
unfolding acknowledge
acknowledge_all store ack_num [] total h = refl
acknowledge_all store ack_num (p ∷ rest) total h =
    rw (lt→ltb _ ack_num h.0, acknowledge)
      (acknowledge_all store ack_num rest (without total (sent_size (deref store p))) h.1)

module _ {D : Type 0} (store : Store) (c : Client D) (counted : IsCounted store c) where
  push_message-IsCounted : (p : ℕ) → IsCounted store (push_message store c p)
  unfolding push_message sum_sizes
  push_message-IsCounted p = omega (arith, sum_sizes-append store c.messages_sent (p ∷ []), counted)

  check_front_all-IsCounted : (ack_num : ℕ) → IsCounted store (check_front_all store c ack_num)
  unfolding check_front_all
  check_front_all-IsCounted ack_num = omega (
    arith,
    acknowledge_total store ack_num c.messages_sent c.total_size_of_messages_sent,
    acknowledge_lt store ack_num c.messages_sent c.total_size_of_messages_sent (omega arith),
    counted,
  )

  -- A client whose total counts each unacknowledged segment once, modulo 2 ^ 16, still does so after
  -- `pushMessage` of any segment and after the loop of `checkFront` over any acknowledgement.
  pub keeps_IsCounted :
      (p ack_num : ℕ)
      → IsCounted store (push_message store c p) × IsCounted store (check_front_all store c ack_num)
  keeps_IsCounted p ack_num = (push_message-IsCounted p, check_front_all-IsCounted ack_num)

  -- A client whose total counts each unacknowledged segment once, modulo 2 ^ 16, still does so after
  -- a `popMessage` that gives a segment back.
  pub pop_message-IsCounted :
      (p : ℕ) (c' : Client D) → pop_message store c ≡ some (p, c') → IsCounted store c'
  unfolding pop_message sum_sizes
  pop_message-IsCounted p c' e = ground (arith, counted, sent_size-lt (deref store p))

  -- After `copyFront`, which every retransmission calls, the total counts the front twice: when all
  -- that was sent is then acknowledged, the queue is empty and the total is not 0 but the size of the
  -- segment that was retransmitted.
  pub copy_front_leaks :
      (p ack_num : ℕ) (c' : Client D)
      → copy_front store c ≡ some (p, c')
      → AllBelow store ack_num c.messages_sent
      → let after = check_front_all store c' ack_num in
        (after.messages_sent ≡ []) × (after.total_size_of_messages_sent ≡ sent_size (deref store p))
  unfolding copy_front check_front_all
  copy_front_leaks p ack_num c' e below =
      let total' = u16 (c.total_size_of_messages_sent + sent_size (deref store p)) in
      let emptied = acknowledge_all store ack_num c.messages_sent total' below in
      ground (
        arith,
        e,
        counted,
        emptied,
        ap (sum_sizes store) emptied,
        sum_sizes-nil store,
        acknowledge_total store ack_num c.messages_sent total',
        acknowledge_lt store ack_num c.messages_sent total',
        sent_size-lt (deref store p),
      )
