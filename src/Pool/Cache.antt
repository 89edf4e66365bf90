-- ===== src/Pool/Cache.antt =====
-- src/pool.c: the batches of the pool, with the cache of the thread, `thead_cache`, below its count.
use joker_complier.Base.{
  ℕ, zero, suc, ◌-◌, Bool, true, false, List, [], ◌∷◌, ◌++◌, Outcome, ok, undefined, out_of_fuel,
  ◌>>=◌, ltb, if◌then◌else◌, length, min, take, drop,
}
use joker_complier.Pool.{Pool, batch_loop, free_batch}

abbrev pub batch_size : ℕ
batch_size = 64

abbrev pub cache_size : ℕ
cache_size = 128

pub record Client : Type 0 where
  pub pool : Pool
  pub cache : List ℕ

-- The nodes are nodes of the pool.
abbrev pub all_below : ℕ → List ℕ → Bool
all_below n [] = true
all_below n (node ∷ nodes) = if ltb node n then all_below n nodes else false

abbrev pub free_one : List ℕ → Pool → Pool
free_one [] pool = pool
free_one (first ∷ chunks) pool = free_batch first chunks pool

-- `pool_free_batch_internal`: a round for each 64 objects
unfoldable pub pool_free_batch_internal : ℕ → List ℕ → Pool → Outcome Pool
pool_free_batch_internal rounds [] pool = ok pool
pool_free_batch_internal zero (o ∷ objs) pool = out_of_fuel
pool_free_batch_internal (suc rounds) (o ∷ objs) pool =
    let batch = take batch_size (o ∷ objs) in
    let rest = pool_free_batch_internal rounds (drop batch_size (o ∷ objs)) (free_one batch pool) in
    if all_below (length pool.next) batch then rest else undefined

-- `pool_free_batch`: the cache takes what it has room for.
unfoldable pub pool_free_batch : ℕ → List ℕ → Client → Outcome Client
unfolding pool_free_batch_internal
pool_free_batch rounds objs client = do
  let to_cache = min (length objs) (cache_size - length client.cache)
  pool ← pool_free_batch_internal rounds (drop to_cache objs) client.pool
  ok (record { pool = pool; cache = client.cache ++ take to_cache objs })

-- `pool_flush_cache`
unfoldable pub pool_flush_cache : ℕ → Client → Outcome Client
unfolding pool_free_batch_internal
pool_flush_cache rounds client = do
  pool ← pool_free_batch_internal rounds client.cache client.pool
  ok (record { pool = pool; cache = [] })

-- The objects above `count`, where a batch gave more than were asked for.
unfoldable pub keep_excess : ℕ → List ℕ → Client → Outcome Client
unfolding pool_free_batch
keep_excess rounds excess client =
    let to_cache = min (length excess) (cache_size - length client.cache) in
    let kept : Client = record client { cache = client.cache ++ take to_cache excess } in
    pool_free_batch rounds (drop to_cache excess) kept

-- `pool_alloc_batch`: first the objects at the end of the cache, the others from the pool
unfoldable pub pool_alloc_batch : ℕ → ℕ → Client → Outcome (List ℕ × Client)
unfolding keep_excess
pool_alloc_batch rounds count client = do
  let from_cache = min count (length client.cache)
  let left = length client.cache - from_cache
  (objs, pool) ← batch_loop rounds (count - from_cache) false client.pool
  let all = drop left client.cache ++ objs
  let after : Client = record { pool = pool; cache = take left client.cache }
  end ← keep_excess rounds (drop count all) after
  ok (take count all, end)
