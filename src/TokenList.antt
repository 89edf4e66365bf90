-- ===== src/TokenList.antt =====
-- src/token.c: the linked list of tokens. A pointer to a token is an index into the heap of tokens, and
-- NULL is `none`.
pub mod Chain
mod Tests
use joker_complier.Base.{
  ℕ, zero, suc, Option, none, some, List, [], ◌∷◌, Outcome, ok, undefined, ◌>>=◌, get_elem?, set,
}
use joker_complier.Token.{Token}

-- A token in memory, with its field `next`.
pub record Node : Type 0 where
  pub token : Token
  pub next : Option ℕ

pub record TokenList : Type 0 where
  pub head : Option ℕ
  pub tail : Option ℕ

unfoldable pub new_token_list : TokenList
new_token_list = record { head = none; tail = none }

-- `node->next = next`
unfoldable pub set_next : List Node → Option ℕ → Option ℕ → Outcome (List Node)
set_next heap none next = undefined
set_next heap (some i) next = elim (get_elem? heap i) [
  | none ↦ undefined
  | some node ↦ ok (set heap i (record node { next = next }))
]

unfoldable pub list_add_token : List Node → TokenList → ℕ → Outcome (List Node × TokenList)
list_add_token heap list token = elim list.head [
  | none ↦ ok (heap, record { head = some token; tail = some token })
  | some head ↦ set_next heap list.tail (some token) >>= λ heap'.
      ok (heap', record list { tail = some token })
]

-- `list_extend_token`, for lists that are not NULL; the list `from` is freed.
unfoldable pub list_extend_token :
    List Node → TokenList → TokenList → Outcome (List Node × TokenList)
list_extend_token heap to from = elim to.head [
  | none ↦ ok (heap, from)
  | some head ↦
      set_next heap to.tail from.head >>= λ heap'. ok (heap', record to { tail = from.tail })
]

abbrev pub first_token : TokenList → Option ℕ
first_token list = list.head

abbrev pub last_token : TokenList → Option ℕ
last_token list = list.tail

-- The loop of `nth_token` with `rounds` left.
unfoldable pub nth_loop : List Node → ℕ → Option ℕ → Outcome (Option ℕ)
nth_loop heap zero node = ok node
nth_loop heap (suc rounds) none = undefined
nth_loop heap (suc rounds) (some i) = elim (get_elem? heap i) [
  | none ↦ undefined
  | some node ↦ elim node.next [ none ↦ ok none | some j ↦ nth_loop heap rounds (some j) ]
]

unfoldable pub nth_token : List Node → TokenList → ℕ → Outcome (Option ℕ)
nth_token heap list n = nth_loop heap n list.head
