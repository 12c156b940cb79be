-- ===== src/Database/Parser/Lines.antt =====
-- The bytes of a line that declares a column, and what `parseCreateTable` of
-- backend/RELATIONAL-DATABASE/src/Parser.cpp makes of it.
use full_stack_shinfeld.Common.{
  All-weaken, ℕ, suc, ◌≤◌, ◌≡◌, refl, ◌++◌, Bool, false, List, [], ◌∷◌, some, length, length-append,
  is_empty, All, All-append, ◌==◌, arith,
}
use full_stack_shinfeld.Text.{IsWord, is_blank}
use full_stack_shinfeld.Database.Parser.{ColumnType, parse_line}
use full_stack_shinfeld.Database.Parser.Words.{joined, words-joined}
use full_stack_shinfeld.Database.Parser.Columns.{
  Attribute, Declared, type_name, attribute_words, column_text, to_column, is_name_byte, IsName,
  HasNames, IsDeclared, column_of-declared,
}

type_name-IsWord : (t : ColumnType) → IsWord (type_name t)
unfolding is_blank
type_name-IsWord ColumnType.int = ground arith
type_name-IsWord ColumnType.bigint = ground arith
type_name-IsWord ColumnType.string = ground arith
type_name-IsWord ColumnType.bool = ground arith
type_name-IsWord ColumnType.float = ground arith
type_name-IsWord ColumnType.nulltype = ground arith

name-IsWord : (name : List ℕ) → IsName name → IsWord name
unfolding is_name_byte
name-IsWord name h = (h.0, All-weaken name (λ c k. ground (arith, k)) h.1)

-- A byte that ends no line.
abbrev pub IsLineByte : ℕ → Type 0
IsLineByte c = ((c == b',') ≡ false) × ((c == b';') ≡ false)

name-IsLine : (name : List ℕ) → IsName name → All IsLineByte name
unfolding is_name_byte
name-IsLine name h = All-weaken name (λ c k. (ground (arith, k), ground (arith, k))) h.1

-- A property of the two words of a name and of the bytes between them holds of a reference.
module _ (P : ℕ → Type 0) (opens : P b'(') (closes : P b')') where
  reference-All :
      (table column : List ℕ)
      → All P table
      → All P column
      → All P (table ++ b'(' ∷ (column ++ b')' ∷ []))
  reference-All table column t c =
      All-append P table (b'(' ∷ (column ++ b')' ∷ [])) t
        (opens, All-append P column (b')' ∷ []) c (closes, _))

not_empty : (xs ys : List ℕ) → is_empty xs ≡ false → is_empty (xs ++ ys) ≡ false
not_empty [] ys h = ground (arith, h)
not_empty (x ∷ xs) ys h = refl

attribute_words-IsWord : (a : Attribute) → HasNames a → All IsWord (attribute_words a)
unfolding is_blank
attribute_words-IsWord Attribute.optional h = _
attribute_words-IsWord Attribute.not_null h = ground arith
attribute_words-IsWord Attribute.primary_key h = ground arith
attribute_words-IsWord Attribute.foreign_key h = ground arith
attribute_words-IsWord (Attribute.references table column) (t, c) =
    let word : IsWord (table ++ b'(' ∷ (column ++ b')' ∷ [])) = (
      not_empty table (b'(' ∷ (column ++ b')' ∷ [])) t.0,
      reference-All (λ (x : ℕ). is_blank x ≡ false) refl refl table column (name-IsWord table t).1
          (name-IsWord column c).1,
    ) in
    (ground arith, (ground arith, (word, _)))

type_name-IsLine : (t : ColumnType) → All IsLineByte (type_name t)
type_name-IsLine ColumnType.int = ground arith
type_name-IsLine ColumnType.bigint = ground arith
type_name-IsLine ColumnType.string = ground arith
type_name-IsLine ColumnType.bool = ground arith
type_name-IsLine ColumnType.float = ground arith
type_name-IsLine ColumnType.nulltype = ground arith

attribute_words-IsLine : (a : Attribute) → HasNames a → All (All IsLineByte) (attribute_words a)
attribute_words-IsLine Attribute.optional h = _
attribute_words-IsLine Attribute.not_null h = ground arith
attribute_words-IsLine Attribute.primary_key h = ground arith
attribute_words-IsLine Attribute.foreign_key h = ground arith
attribute_words-IsLine (Attribute.references table column) (t, c) =
    let word =
      reference-All IsLineByte (refl, refl) (refl, refl) table column (name-IsLine table t)
        (name-IsLine column c) in
    (ground arith, (ground arith, (word, _)))

joined-IsLine : (ws : List (List ℕ)) → All (All IsLineByte) ws → All IsLineByte (joined ws)
unfolding joined
joined-IsLine [] h = _
joined-IsLine (w ∷ []) h = h.0
joined-IsLine (w ∷ v ∷ more) h =
    All-append IsLineByte w (32 ∷ joined (v ∷ more)) h.0
      ((refl, refl), joined-IsLine (v ∷ more) h.1)

pub column_text-IsLine : (d : Declared) → IsDeclared d → All IsLineByte (column_text d)
unfolding column_text
column_text-IsLine d (n, a) =
    joined-IsLine (d.name ∷ type_name d.type ∷ attribute_words d.attribute)
      (name-IsLine d.name n, (type_name-IsLine d.type, attribute_words-IsLine d.attribute a))

length-joined : (word : List ℕ) (ws : List (List ℕ)) → length ws ≤ length (joined (word ∷ ws))
unfolding joined
length-joined word [] = omega arith
length-joined word (v ∷ more) =
    omega (arith, length-append word (32 ∷ joined (v ∷ more)), length-joined v more)

-- A line that declares a column is read as this column.
pub parse_line-column_text :
    (closed : Bool) (d : Declared)
    → IsDeclared d
    → parse_line closed (column_text d) ≡ some (to_column d)
unfolding parse_line column_text
parse_line-column_text closed d (n, a) =
    let ws = type_name d.type ∷ attribute_words d.attribute in
    let line = joined (d.name ∷ ws) in
    ground (
      arith,
      words-joined (suc (length line)) closed d.name ws (omega (arith, length-joined d.name ws))
          (name-IsWord d.name n, (type_name-IsWord d.type, attribute_words-IsWord d.attribute a)),
      column_of-declared d a,
    )
