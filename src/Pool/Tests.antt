-- ===== src/Pool/Tests.antt =====
-- src/pool.c on a pool of three nodes.
use joker_complier.Base.{
  ℕ, List, [], ◌∷◌, none, some, false, Outcome, ok, ◌>>=◌, out_of_fuel, ◌≡◌, refl, arith, get_elem?,
}
use joker_complier.Pool.{
  Pool, tagged, pool_create, pool_alloc, pool_free, batch_loop, batch_round, take_batch,
  take_chunks, load_next, free_batch,
}
use joker_complier.Pool.Chain.{
  Holds, Allocated, down, pool_alloc-Allocated, pool_create-Holds, pool_free-pool_alloc,
  batch_loop-empty, free_batch-first,
}
use joker_complier.Pool.Batch.{batch_loop-take}
use joker_complier.Pool.Cache.{
  Client, pool_alloc_batch, pool_free_batch, keep_excess, pool_free_batch_internal,
}

-- Nodes 2 and 1 are free, and node 0 was never given out; then node 2 is in use.
abbrev three_nodes : Pool
three_nodes = record {
  next = tagged none 0 ∷ tagged none 1 ∷ tagged (some 1) 2 ∷ [];
  head = tagged (some 0) 2;
  free_list = tagged (some 2) 2;
  capacity = 3;
  alloc_cnt = 2;
  free_cnt = 2;
}

abbrev one_used : Pool
one_used = record three_nodes { free_list = tagged (some 1) 3; alloc_cnt = 3 }

abbrev used_up : Pool
used_up = record three_nodes { free_list = tagged none 3; head = tagged none 3; alloc_cnt = 5 }

three_nodes-Holds : Holds three_nodes (2 ∷ 1 ∷ []) (0 ∷ [])
three_nodes-Holds = record {
  freed = (refl, (tagged (some 1) 2, refl, (refl, (tagged none 1, refl, refl))));
  fresh = (refl, (tagged none 0, refl, refl));
}

one_used-Holds : Holds one_used (1 ∷ []) (0 ∷ [])
one_used-Holds = record {
  freed = (refl, (tagged none 1, refl, refl));
  fresh = (refl, (tagged none 0, refl, refl));
}

used_up-Holds : Holds used_up [] []
used_up-Holds = record { freed = refl; fresh = refl }

pool_alloc-Allocated_example : Allocated (2 ∷ 1 ∷ []) (0 ∷ []) (pool_alloc three_nodes)
pool_alloc-Allocated_example =
    pool_alloc-Allocated three_nodes (2 ∷ 1 ∷ []) (0 ∷ []) three_nodes-Holds

pool_create-Holds_example : (pool : Pool) × (pool_create 24 3 ≡ some pool) × Holds pool [] (down 3)
pool_create-Holds_example = pool_create-Holds 24 2 (omega arith)

pool_free-pool_alloc_example :
    (pool' : Pool) × (pool_free 2 one_used ≡ ok pool')
    × Holds pool' (2 ∷ 1 ∷ []) (0 ∷ [])
    × ((pool'' : Pool) × (pool_alloc pool' ≡ ok (some 2, pool'')) × Holds pool'' (1 ∷ []) (0 ∷ []))
pool_free-pool_alloc_example =
    pool_free-pool_alloc one_used (1 ∷ []) (0 ∷ []) 2 one_used-Holds (omega arith) (omega arith, tt)
      (omega arith, tt)

batch_loop-empty_example : batch_loop 5 3 false used_up ≡ out_of_fuel
batch_loop-empty_example = batch_loop-empty 5 2 false used_up used_up-Holds

free_batch-first_example :
    ((free_batch 0 (2 ∷ []) one_used).free_list.ptr ≡ some 0)
    × (get_elem? (free_batch 0 (2 ∷ []) one_used).next 0 ≡ some (tagged none 0))
free_batch-first_example =
    free_batch-first 0 2 [] one_used (omega arith, (omega arith, tt)) (omega arith, tt)

batch_loop-take_example :
    (end : Pool) × (batch_loop 4 3 false three_nodes ≡ ok (2 ∷ 1 ∷ 0 ∷ [], end)) × Holds end [] []
batch_loop-take_example =
    batch_loop-take 4 3 three_nodes (2 ∷ 1 ∷ []) (0 ∷ []) three_nodes-Holds (omega arith)
      (omega arith)

-- Three objects of a new pool: with two of them freed to the cache, the next batch of two is the two of the cache.
abbrev new_pool : Pool
new_pool = record {
  next = tagged none 0 ∷ tagged (some 0) 0 ∷ tagged (some 1) 0 ∷ [];
  head = tagged (some 2) 0;
  free_list = tagged none 0;
  capacity = 3;
  alloc_cnt = 0;
  free_cnt = 0;
}

unfoldable client_run : Outcome (List ℕ)
unfolding pool_alloc_batch pool_free_batch batch_loop
client_run = do
  let start : Client = record { pool = new_pool; cache = [] }
  (all, client) ← pool_alloc_batch 9 3 start
  client' ← pool_free_batch 9 (2 ∷ 1 ∷ []) client
  (objs, end) ← pool_alloc_batch 9 2 client'
  ok objs

client_run_ok : client_run ≡ ok (2 ∷ 1 ∷ [])
unfolding client_run pool_alloc_batch pool_free_batch batch_loop keep_excess
    pool_free_batch_internal batch_round take_batch take_chunks load_next
client_run_ok = refl
