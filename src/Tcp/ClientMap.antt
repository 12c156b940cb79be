-- ===== src/Tcp/ClientMap.antt =====
-- `std::map<uint16_t, Client>`: an association list in the order of the keys, so that a loop over it
-- takes the clients in the order in which the code does. A reference to an entry is its key.
use full_stack_shinfeld.Common.{
  ℕ, ◌≡◌, List, [], ◌∷◌, Option, none, some, ◌==◌, ltb, arith, if◌then◌else◌, is_some,
}

module _ {ℓ} {A : Type ℓ} where
  unfoldable pub find : ℕ → List (ℕ × A) → Option A
  find k [] = none
  find k ((j, a) ∷ rest) = if j == k then some a else find k rest

  -- A change through a reference to the entry; without an entry nothing changes.
  unfoldable pub modify : ℕ → (A → A) → List (ℕ × A) → List (ℕ × A)
  modify k f [] = []
  modify k f ((j, a) ∷ rest) = if j == k then (j, f a) ∷ rest else (j, a) ∷ modify k f rest

  unfoldable pub insert : ℕ → A → List (ℕ × A) → List (ℕ × A)
  insert k a [] = (k, a) ∷ []
  insert k a ((j, b) ∷ rest) = if ltb k j then (k, a) ∷ (j, b) ∷ rest else (j, b) ∷ insert k a rest

  unfoldable pub try_emplace : ℕ → A → List (ℕ × A) → List (ℕ × A)
  unfolding insert
  try_emplace k a m = if is_some (find k m) then m else insert k a m

  unfoldable pub erase : ℕ → List (ℕ × A) → List (ℕ × A)
  erase k [] = []
  erase k ((j, a) ∷ rest) = if j == k then rest else (j, a) ∷ erase k rest

  unfoldable pub keys : List (ℕ × A) → List ℕ
  keys [] = []
  keys ((j, a) ∷ rest) = j ∷ keys rest

  -- What is found after a change of an entry, and after one was put in.
  pub find-modify :
      (k j : ℕ) (f : A → A) (m : List (ℕ × A))
      → find j (modify k f m)
        ≡ (if k == j then elim (find j m) [ none ↦ none | some a ↦ some (f a) ] else find j m)
  unfolding find modify
  find-modify k j f [] = ground arith
  find-modify k j f ((i, a) ∷ rest) = ground (arith, find-modify k j f rest)
