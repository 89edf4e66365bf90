-- ===== src/TokenList/Chain.antt =====
-- src/token.c: the linked list holds a sequence of tokens, and an addition at the tail appends.
use joker_complier.Base.{
  ℕ, zero, suc, ◌<◌, ◌≡◌, refl, ap, ◌∙◌, Bool, true, false, not, ◌&&◌, Option, none, some, List, [],
  ◌∷◌, ◌++◌, arith, ok, ◌==◌, length, get_elem?, set, get_elem?-set, get_elem?-lt,
}
use joker_complier.TokenList.{Node, TokenList, set_next, list_add_token, nth_loop, nth_token}

-- From `start` the nodes are `ids`, one behind the other, up to NULL.
abbrev pub Chain : List Node → Option ℕ → List ℕ → Type 0
Chain heap start [] = start ≡ none
Chain heap start (i ∷ ids) =
    (start ≡ some i) × (n : Node) × (get_elem? heap i ≡ some n) × Chain heap n.next ids

abbrev pub absent : ℕ → List ℕ → Bool
absent i [] = true
absent i (j ∷ js) = not (i == j) && absent i js

-- A list that is not empty: `ids` in front of its last token.
pub record Holds (heap : List Node) (list : TokenList) (ids : List ℕ) (last : ℕ) : Type 0 where
  pub chain : Chain heap list.head (ids ++ last ∷ [])
  pub tail : list.tail ≡ some last
  pub once : absent last ids ≡ true

-- The last node gets a successor that ends the chain.
Chain-append :
    (heap : List Node) (start : Option ℕ) (ids : List ℕ) (last i : ℕ) (n m : Node)
    → get_elem? heap last ≡ some n
    → get_elem? heap i ≡ some m
    → m.next ≡ none
    → absent last ids ≡ true
    → (last == i) ≡ false
    → Chain heap start (ids ++ last ∷ [])
    → Chain (set heap last (record n { next = some i })) start ((ids ++ last ∷ []) ++ i ∷ [])
Chain-append heap start [] last i n m en em stop once apart (e, _, _, _) =
    let lt = get_elem?-lt heap last n en in
    let same : (last == last) ≡ true = ground arith in
    (
      e,
      record n { next = some i },
      get_elem?-set heap last last (record n { next = some i }) lt ∙ rw same,
      (refl, m, get_elem?-set heap last i (record n { next = some i }) lt ∙ rw apart em, stop),
    )
Chain-append heap start (j ∷ js) last i n m en em stop once apart (e, k, ek, rest) =
    let lt = get_elem?-lt heap last n en in
    let other : (last == j) ≡ false = first_apart last j js once in
    (
      e,
      k,
      get_elem?-set heap last j (record n { next = some i }) lt ∙ rw other ek,
      Chain-append heap k.next js last i n m en em stop (rest_once last j js once) apart rest,
    )
  where
    first_apart : (i j : ℕ) (js : List ℕ) → absent i (j ∷ js) ≡ true → (i == j) ≡ false
    first_apart i j js h = ground arith

    rest_once : (i j : ℕ) (js : List ℕ) → absent i (j ∷ js) ≡ true → absent i js ≡ true
    rest_once i j js h = ground arith

-- The last node of a chain is in the heap.
last_node :
    (heap : List Node) (start : Option ℕ) (ids : List ℕ) (last : ℕ)
    → Chain heap start (ids ++ last ∷ [])
    → (n : Node) × (get_elem? heap last ≡ some n)
last_node heap start [] last (e, n, en, _) = (n, en)
last_node heap start (j ∷ js) last (e, n, en, rest) = last_node heap n.next js last rest

nth_loop-step :
    (heap : List Node) (start : Option ℕ) (i j k : ℕ) (n : Node)
    → start ≡ some i
    → get_elem? heap i ≡ some n
    → n.next ≡ some j
    → nth_loop heap (suc k) start ≡ nth_loop heap k (some j)
unfolding nth_loop
nth_loop-step heap start i j k n e en e' = ap (nth_loop heap (suc k)) e ∙ rw (nth_loop, en, e')

nth_loop-Chain :
    (heap : List Node) (start : Option ℕ) (ids : List ℕ) (k : ℕ)
    → Chain heap start ids
    → (k < length ids)
    → nth_loop heap k start ≡ ok (get_elem? ids k)
unfolding nth_loop
nth_loop-Chain heap start [] k chain lt = absurd (omega arith)
nth_loop-Chain heap start (i ∷ ids) zero (e, n, en, rest) lt = ap ok e
nth_loop-Chain heap start (i ∷ []) (suc k) chain lt = absurd (omega arith)
nth_loop-Chain heap start (i ∷ j ∷ ids) (suc k) (e, n, en, (e', m, em, rest)) lt =
    nth_loop-step heap start i j k n e en e'
    ∙ nth_loop-Chain heap (some j) (j ∷ ids) k (refl, m, em, rest) (omega arith)

-- A token that is not in the list and ends a chain is added behind the last one: the list holds the
-- same tokens and then this one, and `nth_token` gives each by its index.
pub list_add_token-Holds :
    (heap : List Node) (list : TokenList) (ids : List ℕ) (last i : ℕ) (m : Node)
    → Holds heap list ids last
    → get_elem? heap i ≡ some m
    → m.next ≡ none
    → absent i (ids ++ last ∷ []) ≡ true
    → (heap' : List Node) × (list' : TokenList) × (list_add_token heap list i ≡ ok (heap', list'))
      × Holds heap' list' (ids ++ last ∷ []) i
      × ((k : ℕ)
          → k < length ((ids ++ last ∷ []) ++ i ∷ [])
          → nth_token heap' list' k ≡ ok (get_elem? ((ids ++ last ∷ []) ++ i ∷ []) k))
unfolding list_add_token set_next nth_token
list_add_token-Holds heap list ids last i m h em stop fresh =
    let (n, en) = last_node heap list.head ids last h.chain in
    let (start, some_head) = head_of heap list.head ids last h.chain in
    let heap' = set heap last (record n { next = some i }) in
    let apart : (last == i) ≡ false = absent_last i ids last fresh in
    let chain = Chain-append heap list.head ids last i n m en em stop h.once apart h.chain in
    (
      heap',
      record list { tail = some i },
      rw (some_head, h.tail, set_next, en),
      record { chain = chain; tail = refl; once = fresh },
      λ k lt. nth_loop-Chain heap' list.head ((ids ++ last ∷ []) ++ i ∷ []) k chain lt,
    )
  where
    head_of :
        (heap : List Node) (start : Option ℕ) (ids : List ℕ) (last : ℕ)
        → Chain heap start (ids ++ last ∷ [])
        → (j : ℕ) × (start ≡ some j)
    head_of heap start [] last (e, _, _, _) = (last, e)
    head_of heap start (j ∷ js) last (e, _, _, _) = (j, e)

    absent_last :
        (i : ℕ) (ids : List ℕ) (last : ℕ) → absent i (ids ++ last ∷ []) ≡ true → (last == i) ≡ false
    absent_last i [] last h = ground arith
    absent_last i (j ∷ js) last h = absent_last i js last (ground arith)
