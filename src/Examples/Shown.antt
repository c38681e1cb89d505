-- ===== src/Examples/Shown.antt =====
-- The display of values on a platform that puts a comma before the digits of a number.
use rowake.Prelude.{ℕ, ◌≤◌, Text, lit, ◌≡◌, refl, Option, none, some, [], ◌∷◌, arith, length}
use rowake.Values.Cache.{
  cache_limit, Stringify, Parses, formatter_cache_key, cached_intl_formatter, Agrees,
  cached_intl_formatter_lem,
}
use rowake.Quote.{quote_identifier, quoted, read_quoted}
use rowake.Quote.Sql.{read_quoted-quote_identifier}
use rowake.Prelude.{drop}

-- A way to write texts that doubles quotation marks; the options are a text themselves.
abbrev writer : Stringify Text
writer = record { text_tail = λ t. drop 1 (quote_identifier t); options = λ o. o }

writer-Parses : Parses Text writer
unfolding quote_identifier quoted
writer-Parses = record {
  read_tail = λ s. read_quoted 34 (34 ∷ s);
  read_options = λ o. some o;
  text_back = λ t rest. read_quoted-quote_identifier t (b':' ∷ rest) refl;
  options_back = λ o. refl;
}

-- A constructor that turns an empty locale down.
abbrev make : Option Text × Text → Option ℕ
make (none, options) = some 0
make (some [], options) = none
make (some (c ∷ t), options) = some (length t)

cached_example :
    let x : Option Text × Text = (some (lit "de-CH"), lit "{}") in
    ((cached_intl_formatter writer make x []).0 ≡ make x)
    × Agrees (formatter_cache_key writer) make (cached_intl_formatter writer make x []).1
    × (length (cached_intl_formatter writer make x []).1 ≤ cache_limit)
cached_example =
    cached_intl_formatter_lem writer writer-Parses make (some (lit "de-CH"), lit "{}") [] tt
      (omega arith)
