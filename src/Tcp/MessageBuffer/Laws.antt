-- ===== src/Tcp/MessageBuffer/Laws.antt =====
-- A property of the segments in a message buffer, each with the number under which it is kept, through
-- the operations of the map.
use mathlib.Core.Path.{subst}
use full_stack_shinfeld.Common.{
  ℕ, ◌≡◌, inl, inr, sym, [], ◌∷◌, some, ◌==◌, All, arith, Bool-cases, ==_iff,
}
use full_stack_shinfeld.Tcp.MessageBuffer
use full_stack_shinfeld.Tcp.MessageBuffer.{MessageBuffer}
use full_stack_shinfeld.Tcp.Segment.{Segment}

module _ (P : ℕ → Segment → Type 0) where
  abbrev pub Holds : MessageBuffer → Type 0
  Holds = All (λ entry. P entry.0 entry.1)

  pub find-Holds :
      (seq : ℕ) (b : MessageBuffer) (s : Segment)
      → Holds b
      → MessageBuffer.find seq b ≡ some s
      → P seq s
  unfolding MessageBuffer.find
  find-Holds seq [] s h e = absurd (cc)
  find-Holds seq ((k, t) ∷ rest) s h e = elim (Bool-cases (k == seq)) [
    | inl e' ↦
        let key = (==_iff k seq).0 e' in
        let same : t ≡ s = ground (arith, e, e') in
        subst (λ x. P seq x) same (subst (λ n. P n t) key h.0)
    | inr e' ↦ find-Holds seq rest s h.1 (ground (arith, e, e'))
  ]

  pub erase-Holds : (seq : ℕ) (b : MessageBuffer) → Holds b → Holds (MessageBuffer.erase seq b)
  unfolding MessageBuffer.erase
  erase-Holds seq [] h = h
  erase-Holds seq ((k, t) ∷ rest) h = elim (Bool-cases (k == seq)) [
    | inl e ↦ rw e h.1
    | inr e ↦ rw e (h.0, erase-Holds seq rest h.1)
  ]

  pub insert-Holds :
      (seq : ℕ) (s : Segment) (b : MessageBuffer)
      → Holds b
      → P seq s
      → Holds (MessageBuffer.insert_or_assign seq s b)
  unfolding MessageBuffer.insert_or_assign
  insert-Holds seq s [] h p = (p, tt)
  insert-Holds seq s ((k, t) ∷ rest) h p = elim (Bool-cases (k == seq)) [
    | inl e ↦ rw e (subst (λ n. P n s) (sym ((==_iff k seq).0 e)) p, h.1)
    | inr e ↦ rw e (h.0, insert-Holds seq s rest h.1 p)
  ]
