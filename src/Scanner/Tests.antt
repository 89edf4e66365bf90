-- ===== src/Scanner/Tests.antt =====
-- src/scanner.c on short texts.
use joker_complier.Base.{ℕ, List, ◌≡◌, if◌then◌else◌}
use joker_complier.Token.{token_fn}
use joker_complier.Scanner.{Scanner, codes, identifier_type}
use joker_complier.Scanner.Covers.{Covers}
use joker_complier.Scanner.Keyword.{keywords, look_up, starts_with_fn, identifier_type-keywords}

abbrev assignment : List ℕ
assignment = codes "var x = 10; /* ten */"

identifier_type-keywords_example :
    identifier_type (codes "fnord")
    ≡ (if starts_with_fn (codes "fnord") then token_fn else look_up keywords (codes "fnord"))
identifier_type-keywords_example = identifier_type-keywords (codes "fnord")
