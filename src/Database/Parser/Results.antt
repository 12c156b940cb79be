-- ===== src/Database/Parser/Results.antt =====
-- What backend/RELATIONAL-DATABASE/src/Parser.cpp can answer.
use mathlib.Core.Path.{subst}
use full_stack_shinfeld.Common.{
  ℕ, zero, suc, ◌≤◌, ◌≡◌, refl, Bool, true, false, List, [], ◌∷◌, Option, none, some, length, All,
  map, drop, ◌==◌, arith, if◌then◌else◌, Bool-cases, inl, inr,
}
use full_stack_shinfeld.Text.{codes, same, to_upper, skip_blanks, break_on, break_text}
use full_stack_shinfeld.Database.Parser.{
  ColumnInfo, ColumnType, CreateTable, Parsed, CommandType, look_up, type_map, cmd_map, parse_line,
  parse_columns, parse_create_table, first_word, run_command, parse, words, with_attribute,
  with_reference, with_words, new_column, column_of,
}

-- Of NOT_NULL, PRIMARY_KEY and FOREIGN_KEY a column has at most one.
pub record HasOneAttribute (col : ColumnInfo) : Type 0 where
  pub nullable_or_no_primary : col.is_nullable ≡ false → col.is_primary_key ≡ false
  pub nullable_or_no_foreign : col.is_nullable ≡ false → col.is_foreign_key ≡ false
  pub primary_or_foreign : col.is_primary_key ≡ true → col.is_foreign_key ≡ false

-- A property of a result that holds when there is none.
module _ {B : Type 0} (P : B → Type 0) where
  abbrev IfSome : Option B → Type 0
  IfSome none = 0 ≤ 0
  IfSome (some b) = P b

  always : (r : Option B) → ((b : B) → P b) → IfSome r
  always none h = omega arith
  always (some b) h = h b

  if-IfSome : (b : Bool) (x y : Option B) → IfSome x → IfSome y → IfSome (if b then x else y)
  if-IfSome true x y h k = h
  if-IfSome false x y h k = k

module _ {A B : Type 0} (Q : A → Type 0) (P : B → Type 0) where
  bind-IfSome :
      (r : Option A) (f : A → Option B)
      → IfSome Q r
      → ((a : A) → Q a → IfSome P (f a))
      → IfSome P (elim r [ none ↦ none | some a ↦ f a ])
  bind-IfSome none f q h = omega arith
  bind-IfSome (some a) f q h = h a q

unattributed : (name : List ℕ) (t : ColumnType) → HasOneAttribute (new_column name t)
unfolding new_column
unattributed name t = record {
  nullable_or_no_primary = λ _. refl;
  nullable_or_no_foreign = λ _. refl;
  primary_or_foreign = λ _. refl;
}

with_attribute-HasOneAttribute :
    (name attribute : List ℕ) (t : ColumnType)
    → IfSome HasOneAttribute (with_attribute (new_column name t) attribute)
unfolding with_attribute new_column
with_attribute-HasOneAttribute name attribute t =
    if-IfSome HasOneAttribute (same attribute (codes "NOT_NULL")) _ _
      (record {
        nullable_or_no_primary = λ _. refl;
        nullable_or_no_foreign = λ _. refl;
        primary_or_foreign = λ e. ground (arith, e);
      })
      (if-IfSome HasOneAttribute (same attribute (codes "PRIMARY_KEY")) _ _
        (record {
          nullable_or_no_primary = λ e. ground (arith, e);
          nullable_or_no_foreign = λ _. refl;
          primary_or_foreign = λ _. refl;
        })
        (if-IfSome HasOneAttribute (same attribute (codes "FOREIGN_KEY")) _ none
          (record {
            nullable_or_no_primary = λ _. refl;
            nullable_or_no_foreign = λ e. ground (arith, e);
            primary_or_foreign = λ e. ground (arith, e);
          })
          (omega arith)))

module _ {A B : Type 0} (P : B → Type 0) where
  either-IfSome :
      (r : Option A) (x : Option B) (f : A → Option B)
      → IfSome P x
      → ((a : A) → IfSome P (f a))
      → IfSome P (elim r [ none ↦ x | some a ↦ f a ])
  either-IfSome none x f h k = h
  either-IfSome (some a) x f h k = k a

Anything : {A : Type 0} → A → Type 0
Anything a = 0 ≤ 0

anything : {A : Type 0} (r : Option A) → IfSome Anything r
unfolding Anything
anything r = always Anything r (λ a. omega arith)

-- The reference leaves the attributes as they are.
referring :
    (col : ColumnInfo) (table column : List ℕ)
    → HasOneAttribute col
    → HasOneAttribute (record col { ref_table = table; ref_column = column })
referring col table column h = record {
  nullable_or_no_primary = h.nullable_or_no_primary;
  nullable_or_no_foreign = h.nullable_or_no_foreign;
  primary_or_foreign = h.primary_or_foreign;
}

with_reference-HasOneAttribute :
    (col : ColumnInfo) (str : List ℕ)
    → HasOneAttribute col
    → IfSome HasOneAttribute (with_reference col str)
unfolding with_reference
with_reference-HasOneAttribute col str h =
    bind-IfSome Anything HasOneAttribute (break_on b'(' str) _ (anything (break_on b'(' str))
      λ (table, after) _.
        either-IfSome HasOneAttribute (break_on b')' table) _ _
          (bind-IfSome Anything HasOneAttribute (break_on b')' after) _
            (anything (break_on b')' after)) (λ (column, _) _. referring col table column h))
          (λ _. referring col table after h)

with_words-HasOneAttribute :
    (name : List ℕ) (t : ColumnType) (ws : List (List ℕ))
    → IfSome HasOneAttribute (with_words (new_column name t) ws)
unfolding with_words
with_words-HasOneAttribute name t [] = unattributed name t
with_words-HasOneAttribute name t (a ∷ []) = with_attribute-HasOneAttribute name a t
with_words-HasOneAttribute name t (a ∷ r ∷ []) = omega arith
with_words-HasOneAttribute name t (a ∷ r ∷ ref ∷ []) =
    bind-IfSome HasOneAttribute HasOneAttribute (with_attribute (new_column name t) a) _
      (with_attribute-HasOneAttribute name a t)
      λ col h.
        if-IfSome HasOneAttribute (same r (codes "References")) _ none
          (with_reference-HasOneAttribute col ref h) (omega arith)
with_words-HasOneAttribute name t (a ∷ r ∷ ref ∷ x ∷ more) = omega arith

column_of-HasOneAttribute : (ws : List (List ℕ)) → IfSome HasOneAttribute (column_of ws)
unfolding column_of
column_of-HasOneAttribute [] = omega arith
column_of-HasOneAttribute (name ∷ []) = omega arith
column_of-HasOneAttribute (name ∷ type ∷ more) =
    bind-IfSome Anything HasOneAttribute (look_up type type_map) _
      (anything (look_up type type_map)) (λ t _. with_words-HasOneAttribute name t more)

parse_line-HasOneAttribute :
    (closed : Bool) (line : List ℕ) → IfSome HasOneAttribute (parse_line closed line)
unfolding parse_line
parse_line-HasOneAttribute closed line =
    bind-IfSome Anything HasOneAttribute (words (suc (length line)) closed line) _
      (anything (words (suc (length line)) closed line)) (λ ws _. column_of-HasOneAttribute ws)

abbrev pub AreColumns : List ColumnInfo → Type 0
AreColumns cols = (1 ≤ length cols) × All HasOneAttribute cols

last_column :
    (closed : Bool) (line : List ℕ)
    → IfSome AreColumns (elim (parse_line closed line) [ none ↦ none | some col ↦ some (col ∷ []) ])
last_column closed line =
    bind-IfSome HasOneAttribute AreColumns (parse_line closed line) _
      (parse_line-HasOneAttribute closed line) (λ col h. (omega arith, (h, _)))

parse_columns-AreColumns : (fuel : ℕ) (text : List ℕ) → IfSome AreColumns (parse_columns fuel text)
unfolding parse_columns
parse_columns-AreColumns zero text = omega arith
parse_columns-AreColumns (suc fuel) text =
    either-IfSome AreColumns (break_on b',' text) _ _
      (either-IfSome AreColumns (break_text (codes ");") text) _ _ (last_column false text)
        (λ (line, _). last_column true line))
      λ (line, after).
        bind-IfSome HasOneAttribute AreColumns (parse_line true line) _
          (parse_line-HasOneAttribute true line)
          λ col h.
            bind-IfSome AreColumns AreColumns (parse_columns fuel after) _
              (parse_columns-AreColumns fuel after) (λ cols k. (omega arith, (h, k.1)))

HasColumns : CreateTable → Type 0
HasColumns table = AreColumns table.columns

parse_create_table-HasColumns : (input : List ℕ) → IfSome HasColumns (parse_create_table input)
unfolding parse_create_table HasColumns
parse_create_table-HasColumns input =
    bind-IfSome Anything HasColumns (break_text (codes "TABLE ") (drop 7 input)) _
      (anything (break_text (codes "TABLE ") (drop 7 input)))
      λ (_, text) _.
        bind-IfSome Anything HasColumns (break_on b'(' text) _ (anything (break_on b'(' text))
          λ (before, after) _.
            bind-IfSome AreColumns HasColumns (parse_columns (suc (length after)) after) _
              (parse_columns-AreColumns (suc (length after)) after) (λ cols k. k)

run_command-HasColumns :
    (input : List ℕ) (r : Option CommandType) (table : CreateTable)
    → run_command input r ≡ Parsed.command table
    → parse_create_table input ≡ some table
unfolding run_command
run_command-HasColumns input none table e = ground (arith, e)
run_command-HasColumns input (some CommandType.create_table) table e = ground (arith, e)
run_command-HasColumns input (some CommandType.insert) table e = ground (arith, e)
run_command-HasColumns input (some CommandType.select) table e = ground (arith, e)
run_command-HasColumns input (some CommandType.update) table e = ground (arith, e)
run_command-HasColumns input (some CommandType.delete) table e = ground (arith, e)

-- A table that is read, from whatever input, has a column, and each of its columns has at most one of
-- the three attributes.
pub parse-AreColumns :
    (input : List ℕ) (table : CreateTable)
    → parse input ≡ Parsed.command table
    → AreColumns table.columns
unfolding parse HasColumns
parse-AreColumns input table e =
    let trimmed = skip_blanks input in
    let word = first_word trimmed in
    let found = look_up (map to_upper word) cmd_map in
    elim (Bool-cases (length word == 6)) [
      | inl six ↦
          subst (λ r. IfSome HasColumns r)
            (run_command-HasColumns trimmed found table (ground (arith, e, six)))
            (parse_create_table-HasColumns trimmed)
      | inr other ↦ ground (arith, e, other)
    ]
