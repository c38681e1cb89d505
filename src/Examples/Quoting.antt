-- ===== src/Examples/Quoting.antt =====
-- Escaping and quoting at concrete texts.
use rowake.Prelude.{lit, ◌≡◌, some, All, ◌++◌, refl}
use rowake.Quote.{html, quote_identifier, shown, read_quoted}
use rowake.Quote.Html.{IsPlain, html_lem}
use rowake.Quote.Sql.{read_quoted-quote_identifier}

html_example :
    (shown 0 (html (lit "<a href='x'>R&amp;D</a>")) ≡ lit "<a href='x'>R&amp;D</a>")
    × All IsPlain (html (lit "<a href='x'>R&amp;D</a>"))
html_example = html_lem (lit "<a href='x'>R&amp;D</a>")

identifier_example :
    read_quoted 34 (quote_identifier (lit "a\"b") ++ lit ".t") ≡ some (lit "a\"b", lit ".t")
identifier_example = read_quoted-quote_identifier (lit "a\"b") (lit ".t") refl
