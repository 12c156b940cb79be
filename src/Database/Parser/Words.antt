-- ===== src/Database/Parser/Words.antt =====
-- The words of a line of `parseCreateTable` in backend/RELATIONAL-DATABASE/src/Parser.cpp.
use full_stack_shinfeld.Common.{
  ℕ, zero, suc, ◌<◌, ◌≡◌, refl, ◌++◌, Bool, true, List, [], ◌∷◌, some, length, All, arith,
  Bool-cases, inl, inr, ◌⊎◌,
}
use full_stack_shinfeld.Text.{
  IsWord, is_blank, skip_blanks, break_by-append, break_by-none, break_by-cases,
}
use full_stack_shinfeld.Database.Parser.{words}

-- The words of a line with one blank between two.
unfoldable pub joined : List (List ℕ) → List ℕ
joined [] = []
joined (w ∷ []) = w
joined (w ∷ v ∷ more) = w ++ 32 ∷ joined (v ∷ more)

words-word :
    (fuel : ℕ) (closed : Bool) (word : List ℕ)
    → IsWord word
    → words (suc fuel) closed word ≡ some (word ∷ [])
unfolding words skip_blanks
words-word fuel closed [] (e, h) = ground (arith, e)
words-word fuel closed (c ∷ cs) (e, h) = ground (arith, h.0, break_by-none is_blank (c ∷ cs) h)

blank_space : is_blank 32 ≡ true
unfolding is_blank
blank_space = refl

words-word_more :
    (fuel : ℕ) (closed : Bool) (word after : List ℕ) (others : List (List ℕ))
    → IsWord word
    → words fuel closed after ≡ some others
    → words (suc fuel) closed (word ++ 32 ∷ after) ≡ some (word ∷ others)
unfolding words skip_blanks
words-word_more fuel closed [] after others (e, h) k = ground (arith, e)
words-word_more fuel closed (c ∷ cs) after others (e, h) k =
    ground (arith, h.0, k, break_by-append is_blank (c ∷ cs) 32 after h blank_space)

-- A line that is not empty and is made of words with one blank between two is split into these.
pub words-joined :
    (fuel : ℕ) (closed : Bool) (word : List ℕ) (ws : List (List ℕ))
    → length ws < fuel
    → All IsWord (word ∷ ws)
    → words fuel closed (joined (word ∷ ws)) ≡ some (word ∷ ws)
unfolding joined
words-joined zero closed word ws small h = ground (arith, small)
words-joined (suc fuel) closed word [] small h = words-word fuel closed word h.0
words-joined (suc fuel) closed word (v ∷ more) small h =
    words-word_more fuel closed word (joined (v ∷ more)) (v ∷ more) h.0
      (words-joined fuel closed v more (omega arith) h.1)

skip_blanks-cases :
    (text : List ℕ)
    → (skip_blanks text ≡ [])
      ⊎ ((c : ℕ) × (rest : List ℕ) × (skip_blanks text ≡ c ∷ rest) × (length rest < length text))
unfolding skip_blanks
skip_blanks-cases [] = inl refl
skip_blanks-cases (c ∷ rest) = elim (Bool-cases (is_blank c)) [
  | inl t ↦ elim (skip_blanks-cases rest) [
    | inl e ↦ inl (ground (arith, t, e))
    | inr (d, more, e, h) ↦ inr (d, more, ground (arith, t, e), omega (arith, h))
  ]
  | inr t ↦ inr (c, rest, ground (arith, t), omega arith)
]

-- A fuel above the number of bytes is enough: one more changes nothing.
pub words-enough :
    (fuel : ℕ) (closed : Bool) (text : List ℕ)
    → length text < fuel
    → words (suc fuel) closed text ≡ words fuel closed text
unfolding words
words-enough zero closed text h = ground (arith, h)
words-enough (suc fuel) closed text h = elim (skip_blanks-cases text) [
  | inl e ↦ ground (arith, e)
  | inr (c, rest, e, shorter) ↦ elim (break_by-cases is_blank (c ∷ rest)) [
    | inl none_left ↦ ground (arith, e, none_left)
    | inr (word, after, found, behind) ↦
        ground (arith, e, found, words-enough fuel closed after (omega (arith, h, shorter, behind)))
  ]
]
