-- ===== src/Database/Parser/Columns.antt =====
-- The columns of a CREATE TABLE command as they are written, and what
-- backend/RELATIONAL-DATABASE/src/Parser.cpp makes of the words and the line of one.
use full_stack_shinfeld.Common.{
  All-weaken, ℕ, ◌≤◌, ◌≡◌, refl, ◌++◌, Bool, true, false, ◌&&◌, not, List, [], ◌∷◌, some, is_empty,
  All, ◌==◌, arith,
}
use full_stack_shinfeld.Text.{codes, same, is_blank, break_on, break_by-append, break_by-none}
use full_stack_shinfeld.Database.Parser.{
  ColumnType, ColumnInfo, look_up, with_attribute, with_reference, with_words, new_column,
  column_of, type_map,
}
use full_stack_shinfeld.Database.Parser.Words.{joined}

pub data Attribute : Type 0 where
  optional not_null primary_key foreign_key : Attribute
  references : List ℕ → List ℕ → Attribute

pub record Declared : Type 0 where
  pub name : List ℕ
  pub type : ColumnType
  pub attribute : Attribute

abbrev pub type_name : ColumnType → List ℕ
type_name ColumnType.int = codes "INT"
type_name ColumnType.bigint = codes "BIGINT"
type_name ColumnType.string = codes "STRING"
type_name ColumnType.bool = codes "BOOL"
type_name ColumnType.float = codes "FLOAT"
type_name ColumnType.nulltype = codes "NULLTYPE"

abbrev pub attribute_words : Attribute → List (List ℕ)
attribute_words Attribute.optional = []
attribute_words Attribute.not_null = codes "NOT_NULL" ∷ []
attribute_words Attribute.primary_key = codes "PRIMARY_KEY" ∷ []
attribute_words Attribute.foreign_key = codes "FOREIGN_KEY" ∷ []
attribute_words (Attribute.references table column) =
    codes "FOREIGN_KEY" ∷ codes "References" ∷ (table ++ b'(' ∷ (column ++ b')' ∷ [])) ∷ []

-- The column that is declared, and the line that declares it.
unfoldable pub column_text : Declared → List ℕ
column_text d = joined (d.name ∷ type_name d.type ∷ attribute_words d.attribute)

abbrev with_declared : ColumnInfo → Attribute → ColumnInfo
with_declared col Attribute.optional = col
with_declared col Attribute.not_null = record col { is_nullable = false }
with_declared col Attribute.primary_key = record col { is_primary_key = true }
with_declared col Attribute.foreign_key = record col { is_foreign_key = true }
with_declared col (Attribute.references table column) = record col {
  is_foreign_key = true;
  ref_table = table;
  ref_column = column;
}

abbrev pub to_column : Declared → ColumnInfo
to_column d =
    with_declared
      (record {
        name = d.name;
        type = d.type;
        is_primary_key = false;
        is_foreign_key = false;
        is_nullable = true;
        ref_table = [];
        ref_column = [];
      })
      d.attribute

-- A byte of a name: no blank, none of `,;()`.
unfoldable pub is_name_byte : ℕ → Bool
is_name_byte c =
    not (is_blank c) && not (c == b',') && not (c == b';') && not (c == b'(') && not (c == b')')

abbrev pub IsName : List ℕ → Type 0
IsName name = (is_empty name ≡ false) × All (λ (c : ℕ). is_name_byte c ≡ true) name

abbrev pub HasNames : Attribute → Type 0
HasNames (Attribute.references table column) = IsName table × IsName column
HasNames _ = 0 ≤ 0

abbrev pub IsDeclared : Declared → Type 0
IsDeclared d = IsName d.name × HasNames d.attribute

name-free :
    (name : List ℕ)
    → IsName name
    → All (λ (c : ℕ). (c == b'(') ≡ false) name × All (λ (c : ℕ). (c == b')') ≡ false) name
unfolding is_name_byte
name-free name h =
    (All-weaken name (λ c k. ground (arith, k)) h.1, All-weaken name (λ c k. ground (arith, k)) h.1)

with_reference-names :
    (col : ColumnInfo) (table column : List ℕ)
    → IsName table
    → IsName column
    → with_reference col (table ++ b'(' ∷ (column ++ b')' ∷ []))
      ≡ some (record col { ref_table = table; ref_column = column })
unfolding with_reference break_on
with_reference-names col table column t c = ground (
  arith,
  break_by-append (λ (d : ℕ). d == b'(') table b'(' (column ++ b')' ∷ []) (name-free table t).0
      refl,
  break_by-none (λ (d : ℕ). d == b')') table (name-free table t).1,
  break_by-append (λ (d : ℕ). d == b')') column b')' [] (name-free column c).1 refl,
)

look_up-type_name : (t : ColumnType) → look_up (type_name t) type_map ≡ some t
unfolding look_up same
look_up-type_name ColumnType.int = refl
look_up-type_name ColumnType.bigint = refl
look_up-type_name ColumnType.string = refl
look_up-type_name ColumnType.bool = refl
look_up-type_name ColumnType.float = refl
look_up-type_name ColumnType.nulltype = refl

with_words-attribute_words :
    (col : ColumnInfo) (a : Attribute)
    → HasNames a
    → with_words col (attribute_words a) ≡ some (with_declared col a)
unfolding with_words with_attribute same
with_words-attribute_words col Attribute.optional h = refl
with_words-attribute_words col Attribute.not_null h = refl
with_words-attribute_words col Attribute.primary_key h = refl
with_words-attribute_words col Attribute.foreign_key h = refl
with_words-attribute_words col (Attribute.references table column) (t, c) =
    with_reference-names (record col { is_foreign_key = true }) table column t c

pub column_of-declared :
    (d : Declared)
    → HasNames d.attribute
    → column_of (d.name ∷ type_name d.type ∷ attribute_words d.attribute) ≡ some (to_column d)
unfolding column_of new_column
column_of-declared d h = ground (
  arith,
  look_up-type_name d.type,
  with_words-attribute_words (new_column d.name d.type) d.attribute h,
)
