-- ===== src/Database/Parser.antt =====
-- backend/RELATIONAL-DATABASE/src/Parser.cpp and include/CommandTypes.hpp: the parser of commands.
-- The messages to the standard output are left out; a null pointer is `none`.
pub mod Words
pub mod Columns
pub mod Lines
pub mod RoundTrip
pub mod Results
use full_stack_shinfeld.Common.{
  ℕ, zero, suc, ◌-◌, ◌++◌, Bool, true, false, ◌&&◌, not, List, [], ◌∷◌, Option, none, some, map,
  ◌==◌, length, drop, take, is_empty, if◌then◌else◌,
}
use full_stack_shinfeld.Text.{
  codes, same, is_blank, to_upper, skip_blanks, break_by, break_on, break_text,
}

-- `Type`.
pub data ColumnType : Type 0 where
  int bigint string bool float nulltype : ColumnType

pub record ColumnInfo : Type 0 where
  pub name : List ℕ
  pub type : ColumnType
  pub is_primary_key : Bool
  pub is_foreign_key : Bool
  pub is_nullable : Bool
  pub ref_table : List ℕ
  pub ref_column : List ℕ

pub data CommandType : Type 0 where
  create_table insert select update delete : CommandType

pub record CreateTable : Type 0 where
  pub table_name : List ℕ
  pub columns : List ColumnInfo

-- What `parse` gives: a null pointer, a command, or the end of a function without a `return`, which
-- C++ leaves undefined.
pub data Parsed : Type 0 where
  null : Parsed
  command : CreateTable → Parsed
  no_return : CommandType → Parsed

module _ {A : Type 0} where
  unfoldable pub look_up : List ℕ → List (List ℕ × A) → Option A
  look_up key [] = none
  look_up key ((k, a) ∷ rest) = if same k key then some a else look_up key rest

abbrev pub cmd_map : List (List ℕ × CommandType)
cmd_map =
    (codes "CREATE", CommandType.create_table)
    ∷ (codes "INSERT", CommandType.insert)
    ∷ (codes "SELECT", CommandType.select)
    ∷ (codes "UPDATE", CommandType.update)
    ∷ (codes "DELETE", CommandType.delete)
    ∷ []

abbrev pub type_map : List (List ℕ × ColumnType)
type_map =
    (codes "INT", ColumnType.int)
    ∷ (codes "BIGINT", ColumnType.bigint)
    ∷ (codes "STRING", ColumnType.string)
    ∷ (codes "BOOL", ColumnType.bool)
    ∷ (codes "FLOAT", ColumnType.float)
    ∷ (codes "NULLTYPE", ColumnType.nulltype)
    ∷ []

-- The loop that collects the words of a line, from the position whose text is `rest`. `closed` says
-- that the line ends where `endLine` was found; else `endLine` is `npos`, and no position but the
-- one behind the last word reaches it. Each round takes at least a byte, so more fuel than bytes is
-- enough.
unfoldable pub words : ℕ → Bool → List ℕ → Option (List (List ℕ))
words zero closed rest = none
words (suc fuel) closed rest =
    if closed && is_empty rest then some [] else elim (skip_blanks rest) [
      | [] ↦ none
      | c ∷ text ↦ elim (break_by is_blank (c ∷ text)) [
        | none ↦ some ((c ∷ text) ∷ [])
        | some (word, after) ↦ elim (words fuel closed after) [
          | none ↦ none
          | some others ↦ some (word ∷ others)
        ]
      ]
    ]

-- `case 2`: the attribute.
unfoldable pub with_attribute : ColumnInfo → List ℕ → Option ColumnInfo
with_attribute col str =
    if same str (codes "NOT_NULL")
    then some (record col { is_nullable = false })
    else if same str (codes "PRIMARY_KEY")
    then some (record col { is_primary_key = true })
    else if same str (codes "FOREIGN_KEY")
    then some (record col { is_foreign_key = true })
    else none

-- `case 4`: what is referred to. The column ends at the first `)` of the word; if that stands before
-- the `(`, the length wraps around and the column is all that follows the `(`.
unfoldable pub with_reference : ColumnInfo → List ℕ → Option ColumnInfo
with_reference col str = elim (break_on b'(' str) [
  | none ↦ none
  | some (table, after) ↦ elim (break_on b')' table) [
    | some _ ↦ some (record col { ref_table = table; ref_column = after })
    | none ↦ elim (break_on b')' after) [
      | none ↦ none
      | some (column, _) ↦ some (record col { ref_table = table; ref_column = column })
    ]
  ]
]

-- The loop over the words behind the name and the type of a column, of which there are 2, 3 or 5.
unfoldable pub with_words : ColumnInfo → List (List ℕ) → Option ColumnInfo
with_words col [] = some col
with_words col (attribute ∷ []) = with_attribute col attribute
with_words col (attribute ∷ references ∷ reference ∷ []) = elim (with_attribute col attribute) [
  | none ↦ none
  | some col' ↦ if same references (codes "References") then with_reference col' reference else none
]
with_words col _ = none

unfoldable pub new_column : List ℕ → ColumnType → ColumnInfo
new_column name type = record {
  name = name;
  type = type;
  is_primary_key = false;
  is_foreign_key = false;
  is_nullable = true;
  ref_table = [];
  ref_column = [];
}

unfoldable pub column_of : List (List ℕ) → Option ColumnInfo
column_of (name ∷ type ∷ more) = elim (look_up type type_map) [
  | none ↦ none
  | some t ↦ with_words (new_column name t) more
]
column_of _ = none

unfoldable pub parse_line : Bool → List ℕ → Option ColumnInfo
parse_line closed line = elim (words (suc (length line)) closed line) [
  | none ↦ none
  | some info ↦ column_of info
]

-- The loop over the lines, from `start`. The last line ends at `);`, or goes to the end of the input
-- when there is none. Each round takes a comma, so more fuel than bytes is enough.
unfoldable pub parse_columns : ℕ → List ℕ → Option (List ColumnInfo)
parse_columns zero text = none
parse_columns (suc fuel) text = elim (break_on b',' text) [
  | some (line, after) ↦ elim (parse_line true line) [
    | none ↦ none
    | some col ↦ elim (parse_columns fuel after) [ none ↦ none | some cols ↦ some (col ∷ cols) ]
  ]
  | none ↦ elim (break_text (codes ");") text) [
    | some (line, _) ↦ elim (parse_line true line) [ none ↦ none | some col ↦ some (col ∷ []) ]
    | none ↦ elim (parse_line false text) [ none ↦ none | some col ↦ some (col ∷ []) ]
  ]
]

-- The name ends one byte before the `(`; when nothing stands before the `(`, the length wraps around
-- and the name is all that follows.
unfoldable pub table_name_of : List ℕ → List ℕ → List ℕ
table_name_of text [] = text
table_name_of text (c ∷ before) = take (length before) (c ∷ before)

unfoldable pub parse_create_table : List ℕ → Option CreateTable
parse_create_table input = elim (break_text (codes "TABLE ") (drop 7 input)) [
  | none ↦ none
  | some (_, text) ↦ elim (break_on b'(' text) [
    | none ↦ none
    | some (before, after) ↦ elim (parse_columns (suc (length after)) after) [
      | none ↦ none
      | some cols ↦ some (record { table_name = table_name_of text before; columns = cols })
    ]
  ]
]

unfoldable pub first_word : List ℕ → List ℕ
first_word text = elim (break_on b' ' text) [ none ↦ text | some (word, _) ↦ word ]

unfoldable pub run_command : List ℕ → Option CommandType → Parsed
run_command input none = Parsed.null
run_command input (some CommandType.create_table) = elim (parse_create_table input) [
  | none ↦ Parsed.null
  | some table ↦ Parsed.command table
]
run_command input (some other) = Parsed.no_return other

unfoldable pub parse : List ℕ → Parsed
unfolding run_command
parse input =
    let trimmed = skip_blanks input in
    let word = first_word trimmed in
    if not (length word == 6)
    then Parsed.null
    else run_command trimmed (look_up (map to_upper word) cmd_map)
