-- ===== src/Pool.antt =====
-- include/pool.h and src/pool.c: the pool of nodes of one size, with its two free lists, in one thread:
-- every exchange of a list's head succeeds at its first try. A node is its index in the memory of the pool, and
-- `next` is the field of each node; the bytes of an object are not kept.
pub mod Batch
pub mod Cache
pub mod Chain
mod Tests
use joker_complier.Base.{
  ℕ, zero, suc, ◌+◌, ◌-◌, ◌%◌, ◌^◌, Bool, true, false, Option, none, some, List, [], ◌∷◌, ◌++◌,
  Outcome, ok, undefined, out_of_fuel, ◌>>=◌, ltb, leb, ◌==◌, if◌then◌else◌, length, get_elem?, set,
  min, take, drop,
}

pub record TaggedPointer : Type 0 where
  pub ptr : Option ℕ
  pub ver : ℕ

abbrev pub tagged : Option ℕ → ℕ → TaggedPointer
tagged ptr ver = record { ptr = ptr; ver = ver % 2 ^ 64 }

pub record Pool : Type 0 where
  pub next : List TaggedPointer
  pub head : TaggedPointer
  pub free_list : TaggedPointer
  pub capacity : ℕ
  pub alloc_cnt : ℕ
  pub free_cnt : ℕ

-- The last of `n` nodes, none where there is no node.
abbrev pub last_node : ℕ → Option ℕ
last_node zero = none
last_node (suc n) = some n

-- The loop of `pool_create`: each node points to the one before.
unfoldable pub link_nodes : ℕ → List TaggedPointer
link_nodes zero = []
link_nodes (suc n) = link_nodes n ++ tagged (last_node n) 0 ∷ []

-- `pool_create`
unfoldable pub pool_create : ℕ → ℕ → Option Pool
unfolding link_nodes
pool_create obj_size capacity =
    let pool : Pool = record {
      next = link_nodes capacity;
      head = tagged (last_node capacity) 0;
      free_list = tagged none 0;
      capacity = capacity;
      alloc_cnt = 0;
      free_cnt = 0;
    } in
    if capacity == 0 then none else if obj_size == 0 then none else some pool

abbrev pub held_node : Option TaggedPointer → Outcome TaggedPointer
held_node none = undefined
held_node (some t) = ok t

-- `chunk->next`
unfoldable pub load_next : List TaggedPointer → ℕ → Outcome TaggedPointer
load_next next node = held_node (get_elem? next node)

-- The loop of `pool_alloc`: the node on top of the list that has the head `old` is taken off it, and `put`
-- writes the head of that list.
unfoldable pub take_node :
    Option ℕ → ℕ → (TaggedPointer → Pool → Pool) → Pool → Outcome (Option ℕ × Pool)
unfolding load_next
take_node none ver put pool = ok (none, pool)
take_node (some chunk) ver put pool = do
  next ← load_next pool.next chunk
  let pool' = put (tagged next.ptr (ver + 1)) pool
  ok (some chunk, record pool' { alloc_cnt = pool'.alloc_cnt + 1 })

abbrev pub no_node : Option ℕ → Bool
no_node none = true
no_node (some node) = false

abbrev pub put_free_list : TaggedPointer → Pool → Pool
put_free_list t pool = record pool { free_list = t }

abbrev pub put_head : TaggedPointer → Pool → Pool
put_head t pool = record pool { head = t }

-- `pool_alloc`
unfoldable pub pool_alloc : Pool → Outcome (Option ℕ × Pool)
pool_alloc pool =
    if no_node pool.free_list.ptr
    then take_node pool.head.ptr pool.head.ver put_head pool
    else take_node pool.free_list.ptr pool.free_list.ver put_free_list pool

-- `pool_free`
unfoldable pub pool_free : ℕ → Pool → Outcome Pool
pool_free node pool =
    let old = pool.free_list in
    let freed = record pool {
      next = set pool.next node (tagged old.ptr (old.ver + 1));
      free_list = tagged (some node) (old.ver + 1);
      free_cnt = pool.free_cnt + 1;
    } in
    if ltb node (length pool.next) then ok freed else undefined

-- The inner loop of `batch_alloc_internal`: up to `request` nodes from `current` on, and the one after them.
unfoldable pub take_chunks : ℕ → Option ℕ → List TaggedPointer → Outcome (List ℕ × Option ℕ)
unfolding load_next
take_chunks zero current next = ok ([], current)
take_chunks (suc request) none next = ok ([], none)
take_chunks (suc request) (some node) next = do
  t ← load_next next node
  (chunks, rest) ← take_chunks request t.ptr next
  ok (node ∷ chunks, rest)

-- The list with the head `old` gives up to `request` nodes to the array; `put` writes the head of that list.
unfoldable pub take_batch :
    ℕ → Option ℕ → ℕ → (TaggedPointer → Pool → Pool) → Pool → Outcome (List ℕ × Pool)
unfolding take_chunks
take_batch request none ver put pool = ok ([], pool)
take_batch request (some node) ver put pool = do
  (chunks, rest) ← take_chunks request (some node) pool.next
  let pool' = put (tagged rest (ver + 1)) pool
  ok (chunks, record pool' { alloc_cnt = pool'.alloc_cnt + length chunks })

-- One round of the outer loop, on the list `target_list` at the first argument.
unfoldable pub batch_round : Bool → ℕ → Pool → Outcome (List ℕ × Pool)
unfolding take_batch
batch_round true request pool = take_batch request pool.head.ptr pool.head.ver put_head pool
batch_round false request pool =
    take_batch request pool.free_list.ptr pool.free_list.ver put_free_list pool

-- `batch_alloc_internal`, with `target_list` the list of nodes never used at true: the loop goes on until
-- `count` nodes are found.
unfoldable pub batch_loop : ℕ → ℕ → Bool → Pool → Outcome (List ℕ × Pool)
unfolding batch_round
batch_loop zero count from_head pool = out_of_fuel
batch_loop (suc rounds) zero from_head pool = ok ([], pool)
batch_loop (suc rounds) (suc count) from_head pool = do
  let target = if from_head then true else no_node pool.free_list.ptr
  (chunks, pool') ← batch_round target (min 64 (suc count)) pool
  (more, end) ← batch_loop rounds (suc count - length chunks) target pool'
  ok (chunks ++ more, end)

-- The links of a batch of `pool_free_batch_internal`, from the last node down to the second.
unfoldable pub link_batch : ℕ → List ℕ → List TaggedPointer → List TaggedPointer
link_batch first [] next = next
link_batch first (c ∷ chunks) next = set (link_batch c chunks next) c (tagged (some first) 0)

abbrev pub last_of : ℕ → List ℕ → ℕ
last_of c [] = c
last_of c (d ∷ chunks) = last_of d chunks

-- One round of `pool_free_batch_internal`, on a batch that begins with `first`
unfoldable pub free_batch : ℕ → List ℕ → Pool → Pool
unfolding link_batch
free_batch first chunks pool =
    let old = pool.free_list in
    record pool {
      next = set (link_batch first chunks pool.next) (last_of first chunks) old;
      free_list = tagged (some first) (old.ver + 1);
      free_cnt = pool.free_cnt + length (first ∷ chunks);
    }
