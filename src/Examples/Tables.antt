-- ===== src/Examples/Tables.antt =====
-- A table of two columns, one of which refers to another table.
use full_stack_shinfeld.Common.{◌≡◌, [], ◌∷◌, map, refl, inl, arith}
use full_stack_shinfeld.Text.{
  codes, same, is_blank, to_upper, skip_blanks, break_on, break_by, break_text, after_prefix,
}
use full_stack_shinfeld.Database.Parser.{
  ColumnType, CreateTable, Parsed, column_of, first_word, look_up, new_column, parse, parse_columns,
  parse_create_table, parse_line, run_command, table_name_of, with_words, words,
}
use full_stack_shinfeld.Database.Parser.Columns.{Attribute, Declared, is_name_byte, to_column}
use full_stack_shinfeld.Database.Parser.RoundTrip.{parse-table_text, table_text}
use full_stack_shinfeld.Database.Parser.Results.{AreColumns, parse-AreColumns}

abbrev id : Declared
id = record { name = codes "id"; type = ColumnType.int; attribute = Attribute.primary_key }

abbrev owner : Declared
owner = record {
  name = codes "owner";
  type = ColumnType.bigint;
  attribute = Attribute.references (codes "users") (codes "id");
}

parse-table_text_example :
    parse (table_text (codes ");") (codes "notes") id (owner ∷ []))
    ≡ Parsed.command
        (record { table_name = codes "notes"; columns = map to_column (id ∷ owner ∷ []) })
unfolding is_name_byte is_blank
parse-table_text_example =
    parse-table_text (codes ");") (codes "notes") id (owner ∷ []) (ground arith) (ground arith)
      (inl refl)

abbrev read_table : CreateTable
read_table = record { table_name = codes "t"; columns = new_column (codes "a") ColumnType.int ∷ [] }

parse-AreColumns_example : AreColumns (read_table).columns
unfolding parse parse_create_table parse_columns parse_line words column_of with_words new_column
    table_name_of first_word run_command look_up same is_blank to_upper skip_blanks break_on
    break_by break_text after_prefix
parse-AreColumns_example = parse-AreColumns (codes "create TABLE t (a INT);") read_table refl
