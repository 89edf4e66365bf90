-- ===== src/TokenList/Tests.antt =====
-- src/token.c on a list of one token.
use joker_complier.Base.{ℕ, ◌<◌, ◌≡◌, refl, none, some, List, [], ◌∷◌, ok, length, get_elem?}
use joker_complier.Token.{token_comma}
use joker_complier.TokenList.{Node, TokenList, list_add_token, nth_token}
use joker_complier.TokenList.Chain.{Holds, list_add_token-Holds}

abbrev comma : Node
comma = record { token = record { lexeme = 44 ∷ []; line = 1; type = token_comma }; next = none }

abbrev two_nodes : List Node
two_nodes = comma ∷ comma ∷ []

abbrev one_token : TokenList
one_token = record { head = some 0; tail = some 0 }

abbrev both : List ℕ
both = 0 ∷ 1 ∷ []

one_token-Holds : Holds two_nodes one_token [] 0
one_token-Holds = record { chain = (refl, comma, refl, refl); tail = refl; once = refl }

list_add_token-Holds_example :
    (heap' : List Node) × (list' : TokenList) × (list_add_token two_nodes one_token 1
      ≡ ok (heap', list'))
    × Holds heap' list' (0 ∷ []) 1
    × ((k : ℕ) → k < length both → nth_token heap' list' k ≡ ok (get_elem? both k))
list_add_token-Holds_example =
    list_add_token-Holds two_nodes one_token [] 0 1 comma one_token-Holds refl refl refl
