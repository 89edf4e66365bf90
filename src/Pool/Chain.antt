-- ===== src/Pool/Chain.antt =====
-- src/pool.c: the free lists of the pool as lists of nodes.
use joker_complier.Base
use joker_complier.Base.{
  ℕ, zero, suc, ◌+◌, ◌-◌, ◌≤◌, ◌<◌, Bool, true, false, Option, none, some, List, [], ◌∷◌, ◌++◌,
  Outcome, ok, out_of_fuel, ◌>>=◌, ltb, leb, ◌==◌, if◌then◌else◌, length, get_elem?, set,
  get_elem?-set, get_elem?-append, arith, ◌≡◌, ◌≢◌, refl, ap, sym, ◌∙◌, Bool-cases, inl, inr,
  length-append, length-set, min,
}
use joker_complier.Pool.{
  TaggedPointer, tagged, Pool, last_node, link_nodes, pool_create, load_next, take_node, no_node,
  put_head, put_free_list, pool_alloc, pool_free, take_batch, batch_round, batch_loop, link_batch,
  last_of, free_batch,
}

-- The nodes from `ptr` on, by the fields `next`.
abbrev pub Chain : List TaggedPointer → Option ℕ → List ℕ → Type 0
Chain next ptr [] = ptr ≡ none
Chain next ptr (node ∷ nodes) =
    (ptr ≡ some node)
    × ((t : TaggedPointer) × (get_elem? next node ≡ some t) × Chain next t.ptr nodes)

-- The node is none of the list.
abbrev pub Apart : ℕ → List ℕ → Type 0
Apart node [] = Unit
Apart node (n ∷ nodes) = (node ≢ n) × Apart node nodes

pub record Holds (pool : Pool) (free_nodes head_nodes : List ℕ) : Type 0 where
  pub freed : Chain pool.next pool.free_list.ptr free_nodes
  pub fresh : Chain pool.next pool.head.ptr head_nodes

-- A write to another node leaves a chain.
Chain-set :
    (next : List TaggedPointer) (ptr : Option ℕ) (nodes : List ℕ) (node : ℕ) (t : TaggedPointer)
    → node < length next
    → Apart node nodes
    → Chain next ptr nodes
    → Chain (set next node t) ptr nodes
Chain-set next ptr [] node t h apart c = c
Chain-set next ptr (n ∷ nodes) node t h apart (e, (t', held, c)) =
    let other : (node == n) ≡ false = ground (arith, apart.0) in
    (
      e,
      (
        t',
        rw (get_elem?-set next node n t h, other) held,
        Chain-set next t'.ptr nodes node t h apart.1 c,
      ),
    )

-- What `pool_alloc` gives: the last node that was freed, else a fresh one, else NULL.
abbrev pub Allocated : List ℕ → List ℕ → Outcome (Option ℕ × Pool) → Type 0
Allocated (n ∷ fs) hs o = (pool : Pool) × (o ≡ ok (some n, pool)) × Holds pool fs hs
Allocated [] (n ∷ hs) o = (pool : Pool) × (o ≡ ok (some n, pool)) × Holds pool [] hs
Allocated [] [] o = (pool : Pool) × (o ≡ ok (none, pool)) × Holds pool [] []

take_node-some :
    (ptr : Option ℕ) (ver : ℕ) (put : TaggedPointer → Pool → Pool) (pool : Pool) (n : ℕ)
    (t : TaggedPointer)
    → ptr ≡ some n
    → get_elem? pool.next n ≡ some t
    → take_node ptr ver put pool
      ≡ ok (
        some n,
        record (put (tagged t.ptr (ver + 1)) pool) {
          alloc_cnt = (put (tagged t.ptr (ver + 1)) pool).alloc_cnt + 1;
        },
      )
take_node-some ptr ver put pool n t e held =
    let taken : take_node ptr ver put pool ≡ take_node (some n) ver put pool =
      ap (λ (p : Option ℕ). take_node p ver put pool) e in
    taken ∙ (unfold take_node load_next in rw held refl)

-- The allocation, by the pointer of the free list that the code tests.
abbrev chosen : Pool → Option ℕ → Outcome (Option ℕ × Pool)
chosen pool ptr =
    if no_node ptr
    then take_node pool.head.ptr pool.head.ver put_head pool
    else take_node pool.free_list.ptr pool.free_list.ver put_free_list pool

-- An allocation takes the first node of the free list, which is the one freed last; where there is none,
-- the first one that was never used; and it is NULL where there is neither. The other nodes stay.
pub pool_alloc-Allocated :
    (pool : Pool) (fs hs : List ℕ) → Holds pool fs hs → Allocated fs hs (pool_alloc pool)
unfolding pool_alloc
pool_alloc-Allocated pool (n ∷ fs) hs held =
    let (e, (t, at, c)) = held.freed in
    (
      record pool {
        free_list = tagged t.ptr (pool.free_list.ver + 1);
        alloc_cnt = pool.alloc_cnt + 1;
      },
      ap (chosen pool) e
          ∙ take_node-some pool.free_list.ptr pool.free_list.ver put_free_list pool n t e at,
      record { freed = c; fresh = held.fresh },
    )
pool_alloc-Allocated pool [] (n ∷ hs) held =
    let (e, (t, at, c)) = held.fresh in
    (
      record pool { head = tagged t.ptr (pool.head.ver + 1); alloc_cnt = pool.alloc_cnt + 1 },
      ap (chosen pool) held.freed
          ∙ take_node-some pool.head.ptr pool.head.ver put_head pool n t e at,
      record { freed = held.freed; fresh = c },
    )
pool_alloc-Allocated pool [] [] held = (
  pool,
  ap (chosen pool) held.freed
      ∙ ap (λ (p : Option ℕ). take_node p pool.head.ver put_head pool) held.fresh
      ∙ (unfold take_node in refl),
  held,
)

-- The nodes below `n`, from the last one down.
abbrev pub down : ℕ → List ℕ
down zero = []
down (suc n) = n ∷ down n

link_nodes-length : (n : ℕ) → length (link_nodes n) ≡ n
unfolding link_nodes
link_nodes-length zero = refl
link_nodes-length (suc n) =
    omega (arith, length-append (link_nodes n) (tagged (last_node n) 0 ∷ []), link_nodes-length n)

Chain-append :
    (next : List TaggedPointer) (t : TaggedPointer) (ptr : Option ℕ) (nodes : List ℕ)
    → Chain next ptr nodes
    → Chain (next ++ t ∷ []) ptr nodes
Chain-append next t ptr [] c = c
Chain-append next t ptr (n ∷ nodes) (e, (t', at, c)) =
    (e, (t', get_elem?-left next t n t' at, Chain-append next t t'.ptr nodes c))
  where
    get_elem?-left :
        (xs : List TaggedPointer) (t : TaggedPointer) (i : ℕ) (a : TaggedPointer)
        → get_elem? xs i ≡ some a
        → get_elem? (xs ++ t ∷ []) i ≡ some a
    get_elem?-left [] t i a e = cc
    get_elem?-left (x ∷ xs) t zero a e = e
    get_elem?-left (x ∷ xs) t (suc i) a e = get_elem?-left xs t i a e

link_nodes-Chain : (n : ℕ) → Chain (link_nodes n) (last_node n) (down n)
unfolding link_nodes
link_nodes-Chain zero = refl
link_nodes-Chain (suc n) =
    let last : ltb n (length (link_nodes n)) ≡ false = ground (arith, link_nodes-length n) in
    let first : n - length (link_nodes n) ≡ 0 = omega (arith, link_nodes-length n) in
    (
      refl,
      (
        tagged (last_node n) 0,
        rw (get_elem?-append (link_nodes n) (tagged (last_node n) 0 ∷ []) n, last, first) refl,
        Chain-append (link_nodes n) (tagged (last_node n) 0) (last_node n) (down n)
            (link_nodes-Chain n),
      ),
    )

-- A new pool has all of its nodes on the list of nodes never used, each once, and none on the free list.
pub pool_create-Holds :
    (obj_size n : ℕ)
    → 0 < obj_size
    → (pool : Pool) × (pool_create obj_size (suc n) ≡ some pool) × Holds pool [] (down (suc n))
unfolding pool_create
pool_create-Holds obj_size n h =
    let large : (obj_size == 0) ≡ false = ground (arith, h) in
    let some_node : (suc n == 0) ≡ false = ground arith in
    (
      record {
        next = link_nodes (suc n);
        head = tagged (some n) 0;
        free_list = tagged none 0;
        capacity = suc n;
        alloc_cnt = 0;
        free_cnt = 0;
      },
      rw (some_node, large) refl,
      record { freed = refl; fresh = link_nodes-Chain (suc n) },
    )

-- A node that is given back is on top of the free list, the others stay, and the next allocation gives it
-- out again. The node is one of the pool that is on neither list.
pub pool_free-pool_alloc :
    (pool : Pool) (fs hs : List ℕ) (node : ℕ)
    → Holds pool fs hs
    → node < length pool.next
    → Apart node fs
    → Apart node hs
    → (pool' : Pool) × (pool_free node pool ≡ ok pool')
      × Holds pool' (node ∷ fs) hs
      × ((pool'' : Pool) × (pool_alloc pool' ≡ ok (some node, pool'')) × Holds pool'' fs hs)
unfolding pool_free
pool_free-pool_alloc pool fs hs node held h apart_free apart_head =
    let old = pool.free_list in
    let t = tagged old.ptr (old.ver + 1) in
    let pool' = record pool {
      next = set pool.next node t;
      free_list = tagged (some node) (old.ver + 1);
      free_cnt = pool.free_cnt + 1;
    } in
    let inside : ltb node (length pool.next) ≡ true = ground (arith, h) in
    let same : (node == node) ≡ true = ground arith in
    let after : Holds pool' (node ∷ fs) hs = record {
      freed = (
        refl,
        (
          t,
          rw (get_elem?-set pool.next node node t h, same) refl,
          Chain-set pool.next old.ptr fs node t h apart_free held.freed,
        ),
      );
      fresh = Chain-set pool.next pool.head.ptr hs node t h apart_head held.fresh;
    } in
    (pool', rw inside refl, after, pool_alloc-Allocated pool' (node ∷ fs) hs after)

-- A round on a list that is empty finds no node and leaves the pool.
pub take_batch-none :
    (request : ℕ) (ptr : Option ℕ) (ver : ℕ) (put : TaggedPointer → Pool → Pool) (pool : Pool)
    → ptr ≡ none
    → take_batch request ptr ver put pool ≡ ok ([], pool)
take_batch-none request ptr ver put pool e =
    let none_taken : take_batch request none ver put pool ≡ ok ([], pool) =
      unfold take_batch in refl in
    ap (λ (p : Option ℕ). take_batch request p ver put pool) e ∙ none_taken

to_head :
    (from_head : Bool) (pool : Pool)
    → pool.free_list.ptr ≡ none
    → (if from_head then true else no_node pool.free_list.ptr) ≡ true
to_head true pool e = refl
to_head false pool e = ap no_node e

round-empty :
    (rounds count : ℕ) (from_head : Bool) (pool : Pool)
    → Holds pool [] []
    → batch_loop rounds (suc count) true pool ≡ out_of_fuel
    → batch_loop (suc rounds) (suc count) from_head pool ≡ out_of_fuel
unfolding batch_loop
round-empty rounds count from_head pool held rest =
    let found : batch_round true (min 64 (suc count)) pool ≡ ok ([], pool) =
      unfold batch_round in
      take_batch-none (min 64 (suc count)) pool.head.ptr pool.head.ver put_head pool held.fresh in
    let all : suc count - 0 ≡ suc count = omega arith in
    rw (to_head from_head pool held.freed, found, all)
      (ap
        (λ (o : Outcome (List ℕ × Pool)).
          Base.◌>>=◌ {B = List ℕ × Pool} o λ (r : List ℕ × Pool). ok ([] ++ r.0, r.1))
        rest)

-- Where both lists are empty, a batch of at least one node is never found: the loop of
-- `batch_alloc_internal` goes round without end, however many rounds it takes.
pub batch_loop-empty :
    (rounds count : ℕ) (from_head : Bool) (pool : Pool)
    → Holds pool [] []
    → batch_loop rounds (suc count) from_head pool ≡ out_of_fuel
batch_loop-empty zero count from_head pool held = unfold batch_loop in refl
batch_loop-empty (suc rounds) count from_head pool held =
    round-empty rounds count from_head pool held (batch_loop-empty rounds count true pool held)

abbrev pub Inside : List TaggedPointer → List ℕ → Type 0
Inside next [] = Unit
Inside next (node ∷ nodes) = (node < length next) × Inside next nodes

link_batch-length :
    (first : ℕ) (chunks : List ℕ) (next : List TaggedPointer)
    → length (link_batch first chunks next) ≡ length next
unfolding link_batch
link_batch-length first [] next = refl
link_batch-length first (c ∷ chunks) next =
    length-set (link_batch c chunks next) c (tagged (some first) 0)
    ∙ link_batch-length c chunks next

link_batch-Apart :
    (first : ℕ) (chunks : List ℕ) (next : List TaggedPointer) (node : ℕ)
    → Inside next chunks
    → Apart node chunks
    → get_elem? (link_batch first chunks next) node ≡ get_elem? next node
unfolding link_batch
link_batch-Apart first [] next node inside apart = refl
link_batch-Apart first (c ∷ chunks) next node inside apart =
    let low : c < length (link_batch c chunks next) =
      omega (arith, inside.0, link_batch-length c chunks next) in
    let other : (c == node) ≡ false = ground (arith, apart.0) in
    rw (get_elem?-set (link_batch c chunks next) c node (tagged (some first) 0) low, other)
      (link_batch-Apart c chunks next node inside.1 apart.1)

last_of-Apart : (node c : ℕ) (chunks : List ℕ) → Apart node (c ∷ chunks) → node ≢ last_of c chunks
last_of-Apart node c [] apart = apart.0
last_of-Apart node c (d ∷ chunks) apart = last_of-Apart node d chunks apart.1

last_of-Inside :
    (next : List TaggedPointer) (c : ℕ) (chunks : List ℕ)
    → Inside next (c ∷ chunks)
    → last_of c chunks < length next
last_of-Inside next c [] inside = inside.0
last_of-Inside next c (d ∷ chunks) inside = last_of-Inside next d chunks inside.1

-- A batch of at least two nodes puts its first node on top of the free list and leaves the field `next` of
-- that node as it was: neither the rest of the batch nor the nodes that were free before follow it.
pub free_batch-first :
    (first c : ℕ) (chunks : List ℕ) (pool : Pool)
    → Inside pool.next (first ∷ c ∷ chunks)
    → Apart first (c ∷ chunks)
    → ((free_batch first (c ∷ chunks) pool).free_list.ptr ≡ some first)
      × (get_elem? (free_batch first (c ∷ chunks) pool).next first ≡ get_elem? pool.next first)
unfolding free_batch
free_batch-first first c chunks pool inside apart =
    let links = link_batch first (c ∷ chunks) pool.next in
    let last = last_of c chunks in
    let low : last < length links = omega (
      arith,
      last_of-Inside pool.next c chunks inside.1,
      link_batch-length first (c ∷ chunks) pool.next,
    ) in
    let other : (last == first) ≡ false = ground (arith, last_of-Apart first c chunks apart) in
    (
      refl,
      rw (get_elem?-set links last first pool.free_list low, other)
          (link_batch-Apart first (c ∷ chunks) pool.next first inside.1 apart),
    )
