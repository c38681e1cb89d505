-- ===== src/Examples/Suggesting.antt =====
-- Suggestions over two tables.
use rowake.Prelude.{Text, lit, ◌≡◌, ◌==◌, refl, Bool, true, false, List, [], ◌∷◌}
use rowake.Data.{Column}
use rowake.Quote.{table_statement}
use rowake.Completion.{Source, is_plain, available_query_columns}
use rowake.Completion.Columns.{is_offered, has_source, IsDistinct, available_query_columns_lem}
use rowake.Completion.Statement.{referenced-table_statement}
use rowake.Completion.Context.{
  referenced_query_tables, wants_columns, should_start_query_completion,
}
use rowake.Examples.{host}

abbrev column : Text → Column
column name = record {
  name = name;
  data_type = lit "integer";
  nullable = false;
  default = [];
  primary_key = false;
}

abbrev tables : List Source
tables =
    record { name = lit "orders"; columns = column (lit "id") ∷ column (lit "total") ∷ [] }
    ∷ record { name = lit "items"; columns = column (lit "id") ∷ [] }
    ∷ []

columns_example :
    ((key table : Text)
      → is_offered host.lower key table
          (available_query_columns host.lower (lit "orders" ∷ []) tables)
        ≡ has_source host.lower (lit "orders" ∷ []) key table tables)
    × IsDistinct host.lower (available_query_columns host.lower (lit "orders" ∷ []) tables)
columns_example = available_query_columns_lem host.lower (lit "orders" ∷ []) tables

-- A server that makes letters capital, with one reserved word.
abbrev reserved : Text → Bool
reserved name = name == lit "ORDER"

statement_example :
    referenced_query_tables (table_statement (lit "main") (lit "orders") 100) ≡ lit "orders" ∷ []
unfolding is_plain
statement_example = referenced-table_statement b'm' (lit "ain") (lit "orders") 100 refl refl

two_tables :
    referenced_query_tables (lit "select * from main.orders o join \"items\" on o.id = ")
    ≡ lit "orders" ∷ lit "items" ∷ []
unfolding referenced_query_tables
two_tables = refl

-- Of a name between double quotes the first part is taken that looks like a plain name.
cut_name : referenced_query_tables (lit "SELECT * FROM \"order items\"") ≡ lit "order" ∷ []
unfolding referenced_query_tables
cut_name = refl

column_places :
    (wants_columns (lit "SELECT a, ") ≡ true)
    × (wants_columns (lit "SELECT * FROM ") ≡ false)
    × (wants_columns (lit "SELECT o.") ≡ false)
    × (wants_columns (lit "WHERE x = 1 and ") ≡ true)
unfolding wants_columns
column_places = (refl, refl, refl, refl)

start_places :
    (should_start_query_completion (lit "SELECT ") ≡ true)
    × (should_start_query_completion (lit "SELECT 1 ") ≡ false)
    × (should_start_query_completion [] ≡ false)
unfolding should_start_query_completion
start_places = (refl, refl, refl)
