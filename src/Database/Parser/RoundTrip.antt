-- ===== src/Database/Parser/RoundTrip.antt =====
-- A CREATE TABLE command as it is written is read back by
-- backend/RELATIONAL-DATABASE/src/Parser.cpp.
use full_stack_shinfeld.Common.{
  All-weaken, ℕ, zero, suc, ◌<◌, ◌≤◌, ◌≡◌, refl, ap, ◌++◌, true, false, List, [], ◌∷◌, some, length,
  length-append, All, All-append, map, take, ◌==◌, arith, append-nil, inl, inr, ◌⊎◌,
}
use full_stack_shinfeld.Text.{
  codes, same, is_blank, to_upper, skip_blanks, break_on, break_by, break_by-append, break_by-none,
  break_by-cases, break_text, break_text-append, break_text-none, after_prefix,
}
use full_stack_shinfeld.Database.Parser.{
  ColumnInfo, Parsed, look_up, parse_columns, table_name_of, parse_create_table, first_word, parse,
}
use full_stack_shinfeld.Database.Parser.Columns.{Declared, column_text, to_column, IsDeclared}
use full_stack_shinfeld.Database.Parser.Lines.{column_text-IsLine, parse_line-column_text}

-- A fuel above the number of bytes is enough: one more changes nothing.
parse_columns-enough :
    (fuel : ℕ) (text : List ℕ)
    → length text < fuel
    → parse_columns (suc fuel) text ≡ parse_columns fuel text
unfolding parse_columns break_on
parse_columns-enough zero text h = ground (arith, h)
parse_columns-enough (suc fuel) text h = elim (break_by-cases (λ (c : ℕ). c == b',') text) [
  | inl e ↦ ground (arith, e)
  | inr (line, after, e, shorter) ↦
      ground (arith, e, parse_columns-enough fuel after (omega (arith, h, shorter)))
]

-- The lines of the columns, with a comma between two and the ending behind the last.
unfoldable pub columns_text : List ℕ → Declared → List Declared → List ℕ
columns_text ending d [] = column_text d ++ ending
columns_text ending d (e ∷ more) = column_text d ++ b',' ∷ columns_text ending e more

abbrev pub table_text : List ℕ → List ℕ → Declared → List Declared → List ℕ
table_text ending name d more =
    codes "CREATE TABLE " ++ ((name ++ codes " ") ++ b'(' ∷ columns_text ending d more)

no_comma : (d : Declared) → IsDeclared d → All (λ (c : ℕ). (c == b',') ≡ false) (column_text d)
no_comma d h = All-weaken (column_text d) (λ c k. k.0) (column_text-IsLine d h)

no_semicolon : (d : Declared) → IsDeclared d → All (λ (c : ℕ). (c == b';') ≡ false) (column_text d)
no_semicolon d h = All-weaken (column_text d) (λ c k. k.1) (column_text-IsLine d h)

parse_columns-closed :
    (fuel : ℕ) (d : Declared)
    → IsDeclared d
    → parse_columns (suc fuel) (column_text d ++ codes ");") ≡ some (to_column d ∷ [])
unfolding parse_columns break_on
parse_columns-closed fuel d h = ground (
  arith,
  break_by-none (λ (c : ℕ). c == b',') (column_text d ++ codes ");")
      (All-append (λ (c : ℕ). (c == b',') ≡ false) (column_text d) (codes ");") (no_comma d h)
        (refl, (refl, _))),
  break_text-append (column_text d) (no_semicolon d h),
  parse_line-column_text true d h,
)

parse_columns-open :
    (fuel : ℕ) (d : Declared)
    → IsDeclared d
    → parse_columns (suc fuel) (column_text d) ≡ some (to_column d ∷ [])
unfolding parse_columns break_on
parse_columns-open fuel d h = ground (
  arith,
  break_by-none (λ (c : ℕ). c == b',') (column_text d) (no_comma d h),
  break_text-none (column_text d) (no_semicolon d h),
  parse_line-column_text false d h,
)

parse_columns-comma :
    (fuel : ℕ) (d : Declared) (after : List ℕ) (cols : List ColumnInfo)
    → IsDeclared d
    → parse_columns fuel after ≡ some cols
    → parse_columns (suc fuel) (column_text d ++ b',' ∷ after) ≡ some (to_column d ∷ cols)
unfolding parse_columns break_on
parse_columns-comma fuel d after cols h e = ground (
  arith,
  e,
  break_by-append (λ (c : ℕ). c == b',') (column_text d) b',' after (no_comma d h) refl,
  parse_line-column_text true d h,
)

-- The ending `);`, and none.
abbrev pub Ending : List ℕ → Type 0
Ending ending = (ending ≡ codes ");") ⊎ (ending ≡ [])

parse_columns-columns_text :
    (fuel : ℕ) (ending : List ℕ) (d : Declared) (more : List Declared)
    → length more < fuel
    → All IsDeclared (d ∷ more)
    → Ending ending
    → parse_columns fuel (columns_text ending d more) ≡ some (map to_column (d ∷ more))
unfolding columns_text
parse_columns-columns_text zero ending d more small h k = ground (arith, small)
parse_columns-columns_text (suc fuel) ending d [] small h (inl e) =
    rw e (parse_columns-closed fuel d h.0)
parse_columns-columns_text (suc fuel) ending d [] small h (inr e) =
    rw (e, append-nil (column_text d)) (parse_columns-open fuel d h.0)
parse_columns-columns_text (suc fuel) ending d (next ∷ more) small h k =
    parse_columns-comma fuel d (columns_text ending next more) (map to_column (next ∷ more)) h.0
      (parse_columns-columns_text fuel ending next more (omega arith) h.1 k)

length-columns_text :
    (ending : List ℕ) (d : Declared) (more : List Declared)
    → length more ≤ length (columns_text ending d more)
unfolding columns_text
length-columns_text ending d [] = omega arith
length-columns_text ending d (next ∷ more) = omega (
  arith,
  length-append (column_text d) (b',' ∷ columns_text ending next more),
  length-columns_text ending next more,
)

take-append : (xs : List ℕ) (ys : List ℕ) → take (length xs) (xs ++ ys) ≡ xs
take-append [] ys = refl
take-append (x ∷ xs) ys = ap (λ (l : List ℕ). x ∷ l) (take-append xs ys)

length-snoc : (cs : List ℕ) → length (cs ++ 32 ∷ []) ≡ suc (length cs)
length-snoc cs = omega (arith, length-append cs (32 ∷ []))

table_name_of-blank : (text name : List ℕ) → table_name_of text (name ++ 32 ∷ []) ≡ name
unfolding table_name_of
table_name_of-blank text [] = refl
table_name_of-blank text (c ∷ cs) = rw (length-snoc cs) (take-append (c ∷ cs) (32 ∷ []))

parse_create_table-table_text :
    (ending name : List ℕ) (d : Declared) (more : List Declared)
    → All (λ (c : ℕ). (c == b'(') ≡ false) name
    → All IsDeclared (d ∷ more)
    → Ending ending
    → parse_create_table (table_text ending name d more)
      ≡ some (record { table_name = name; columns = map to_column (d ∷ more) })
unfolding parse_create_table break_on break_text after_prefix
parse_create_table-table_text ending name d more n h k =
    let after = columns_text ending d more in
    ground (
      arith,
      break_by-append (λ (c : ℕ). c == b'(') (name ++ codes " ") b'(' after
          (All-append (λ (c : ℕ). (c == b'(') ≡ false) name (codes " ") n (refl, _)) refl,
      parse_columns-columns_text (suc (length after)) ending d more
          (omega (arith, length-columns_text ending d more)) h k,
      table_name_of-blank ((name ++ codes " ") ++ b'(' ∷ after) name,
    )

-- A CREATE TABLE command with a name that has no `(` in it, a blank before the `(`, and columns with
-- proper names, each line made of words with one blank between two, is read back: the name, and every
-- column with its type, its attribute and its reference. The `);` at the end may be missing.
pub parse-table_text :
    (ending name : List ℕ) (d : Declared) (more : List Declared)
    → All (λ (c : ℕ). (c == b'(') ≡ false) name
    → All IsDeclared (d ∷ more)
    → Ending ending
    → parse (table_text ending name d more)
      ≡ Parsed.command (record { table_name = name; columns = map to_column (d ∷ more) })
unfolding parse skip_blanks is_blank first_word break_on break_by to_upper look_up same
parse-table_text ending name d more n h k =
    ground (arith, parse_create_table-table_text ending name d more n h k)
