-- ===== src/Tcp/MessageBuffer.antt =====
-- The `std::map` from sequence numbers to out of order segments in backend/TCP/src/Client.cpp: it is
-- only searched by key, so the order of the entries does not matter.
pub mod Laws
use full_stack_shinfeld.Common.{
  ℕ, ◌≡◌, refl, List, [], ◌∷◌, Option, none, some, ◌==◌, arith, if◌then◌else◌,
}
use full_stack_shinfeld.Tcp.Segment.{Segment}

abbrev pub MessageBuffer : Type 0
MessageBuffer = List (ℕ × Segment)

unfoldable pub find : ℕ → MessageBuffer → Option Segment
find seq [] = none
find seq ((k, s) ∷ rest) = if k == seq then some s else find seq rest

unfoldable pub erase : ℕ → MessageBuffer → MessageBuffer
erase seq [] = []
erase seq ((k, s) ∷ rest) = if k == seq then rest else (k, s) ∷ erase seq rest

unfoldable pub insert_or_assign : ℕ → Segment → MessageBuffer → MessageBuffer
insert_or_assign seq s [] = (seq, s) ∷ []
insert_or_assign seq s ((k, old) ∷ rest) =
    if k == seq then (k, s) ∷ rest else (k, old) ∷ insert_or_assign seq s rest

-- What is looked up after a segment was put in.
pub find-insert_or_assign :
    (seq j : ℕ) (s : Segment) (b : MessageBuffer)
    → find j (insert_or_assign seq s b) ≡ (if seq == j then some s else find j b)
unfolding find insert_or_assign
find-insert_or_assign seq j s [] = refl
find-insert_or_assign seq j s ((k, old) ∷ rest) = ground (arith, find-insert_or_assign seq j s rest)
