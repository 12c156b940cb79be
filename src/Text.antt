-- ===== src/Text.antt =====
-- What backend/RELATIONAL-DATABASE/src/Parser.cpp and backend/WEBSOCKET/src/HttpHandler.cpp use of
-- `std::string`: a string is the list of its bytes, and a position that a search gives is what stands
-- before it and what stands behind it.
use Prim.Native.Char.{code}
use Prim.Native.String.{String}
use full_stack_shinfeld.Common.{
  ℕ, ◌-◌, ◌≡◌, refl, ◌++◌, Bool, true, false, ◌&&◌, ◌||◌, List, [], ◌∷◌, Option, none, some, ◌==◌,
  leb, All, is_empty, arith, Bool-cases, inl, inr, ◌⊎◌, length, ◌<◌, if◌then◌else◌,
}

-- The bytes of a literal.
abbrev pub codes : String → List ℕ
codes String.[] = []
codes (String.◌∷◌ c s) = code c ∷ codes s

unfoldable pub same : List ℕ → List ℕ → Bool
same [] [] = true
same [] (y ∷ ys) = false
same (x ∷ xs) [] = false
same (x ∷ xs) (y ∷ ys) = x == y && same xs ys

-- One of " \t\n\r\f\v".
unfoldable pub is_blank : ℕ → Bool
is_blank c = c == 32 || leb 9 c && leb c 13

-- `std::toupper` in the C locale.
unfoldable pub to_upper : ℕ → ℕ
to_upper c = if leb b'a' c && leb c b'z' then c - 32 else c

-- `find_first_not_of` a blank: the text from there, empty if there is none.
unfoldable pub skip_blanks : List ℕ → List ℕ
skip_blanks [] = []
skip_blanks (c ∷ rest) = if is_blank c then skip_blanks rest else c ∷ rest

consed : ℕ → Option (List ℕ × List ℕ) → Option (List ℕ × List ℕ)
consed c none = none
consed c (some (before, after)) = some (c ∷ before, after)

-- `find_first_of` for the bytes that pass the test: what stands before the first, and what behind it.
unfoldable pub break_by : (ℕ → Bool) → List ℕ → Option (List ℕ × List ℕ)
unfolding consed
break_by test [] = none
break_by test (c ∷ rest) = if test c then some ([], rest) else consed c (break_by test rest)

unfoldable pub break_on : ℕ → List ℕ → Option (List ℕ × List ℕ)
break_on c text = break_by (λ d. d == c) text

-- What follows the pattern, if the text begins with it.
unfoldable pub after_prefix : List ℕ → List ℕ → Option (List ℕ)
after_prefix [] text = some text
after_prefix (p ∷ ps) [] = none
after_prefix (p ∷ ps) (c ∷ rest) = if p == c then after_prefix ps rest else none

-- `find` of a text that is not empty.
unfoldable pub break_text : List ℕ → List ℕ → Option (List ℕ × List ℕ)
unfolding consed
break_text pattern [] = none
break_text pattern (c ∷ rest) = elim (after_prefix pattern (c ∷ rest)) [
  | some after ↦ some ([], after)
  | none ↦ consed c (break_text pattern rest)
]

-- A word holds a byte, and no blank.
abbrev pub IsWord : List ℕ → Type 0
IsWord word = (is_empty word ≡ false) × All (λ (c : ℕ). is_blank c ≡ false) word

module _ (test : ℕ → Bool) where
  pub break_by-append :
      (before : List ℕ) (c : ℕ) (after : List ℕ)
      → All (λ (d : ℕ). test d ≡ false) before
      → test c ≡ true
      → break_by test (before ++ c ∷ after) ≡ some (before, after)
  unfolding break_by consed
  break_by-append [] c after h t = ground (arith, t)
  break_by-append (d ∷ before) c after (h, hs) t =
      ground (arith, h, break_by-append before c after hs t)

  pub break_by-none :
      (text : List ℕ) → All (λ (d : ℕ). test d ≡ false) text → break_by test text ≡ none
  unfolding break_by consed
  break_by-none [] h = refl
  break_by-none (c ∷ rest) (h, hs) = ground (arith, h, break_by-none rest hs)

  pub break_by-cases :
      (text : List ℕ)
      → (break_by test text ≡ none)
        ⊎ ((before : List ℕ) × (after : List ℕ) × (break_by test text ≡ some (before, after))
            × (length after < length text))
  unfolding break_by consed
  break_by-cases [] = inl refl
  break_by-cases (c ∷ rest) = elim (Bool-cases (test c)) [
    | inl t ↦ inr ([], rest, ground (arith, t), omega arith)
    | inr t ↦ elim (break_by-cases rest) [
      | inl e ↦ inl (ground (arith, t, e))
      | inr (before, after, e, h) ↦ inr (c ∷ before, after, ground (arith, t, e), omega (arith, h))
    ]
  ]

-- A text without a semicolon ends where its closing is first found.
pub break_text-append :
    (text : List ℕ)
    → All (λ (c : ℕ). (c == b';') ≡ false) text
    → break_text (codes ");") (text ++ codes ");") ≡ some (text, [])
unfolding break_text after_prefix consed
break_text-append [] h = refl
break_text-append (c ∷ []) (h, hs) = ground (arith, h)
break_text-append (c ∷ d ∷ rest) (h, hs) = ground (arith, h, hs.0, break_text-append (d ∷ rest) hs)

pub break_text-none :
    (text : List ℕ)
    → All (λ (c : ℕ). (c == b';') ≡ false) text
    → break_text (codes ");") text ≡ none
unfolding break_text after_prefix consed
break_text-none [] h = refl
break_text-none (c ∷ []) (h, hs) = ground (arith, h)
break_text-none (c ∷ d ∷ rest) (h, hs) = ground (arith, h, hs.0, break_text-none (d ∷ rest) hs)
