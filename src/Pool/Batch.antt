-- ===== src/Pool/Batch.antt =====
-- src/pool.c: the batches that `batch_alloc_internal` takes from the two lists of the pool.
use mathlib.Core.Path.{subst}
use joker_complier.Base
use joker_complier.Base.{
  ℕ, zero, suc, ◌+◌, ◌-◌, ◌≤◌, ◌<◌, Bool, true, false, Option, none, some, List, [], ◌∷◌, ◌++◌,
  Outcome, ok, ◌>>=◌, length, get_elem?, take, drop, if◌then◌else◌, arith, ◌≡◌, refl, ap, sym, ◌∙◌,
  min, length-take, length-drop,
}
use joker_complier.Pool.{
  TaggedPointer, tagged, Pool, load_next, put_head, put_free_list, take_chunks, take_batch,
  batch_round, batch_loop, no_node,
}
use joker_complier.Pool.Chain.{Chain, Holds, take_batch-none}

-- The nodes that the inner loop takes are the first ones of the list, and the pointer is left at the others.
take_chunks_lem :
    (request : ℕ) (ptr : Option ℕ) (next : List TaggedPointer) (nodes : List ℕ)
    → Chain next ptr nodes
    → (rest : Option ℕ) × (take_chunks request ptr next ≡ ok (take request nodes, rest))
      × Chain next rest (drop request nodes)
take_chunks_lem zero ptr next nodes c = (ptr, unfold take_chunks in refl, c)
take_chunks_lem (suc request) ptr next [] c =
    let stops : take_chunks (suc request) none next ≡ ok ([], none) = unfold take_chunks in refl in
    (none, ap (λ (p : Option ℕ). take_chunks (suc request) p next) c ∙ stops, refl)
take_chunks_lem (suc request) ptr next (n ∷ nodes) (e, (t, at, c)) =
    let (rest, taken, left) = take_chunks_lem request t.ptr next nodes c in
    (
      rest,
      ap (λ (p : Option ℕ). take_chunks (suc request) p next) e
          ∙ one_more request n t nodes rest next at taken,
      left,
    )
  where
    one_more :
        (request n : ℕ) (t : TaggedPointer) (nodes : List ℕ) (rest : Option ℕ)
        (next : List TaggedPointer)
        → get_elem? next n ≡ some t
        → take_chunks request t.ptr next ≡ ok (take request nodes, rest)
        → take_chunks (suc request) (some n) next ≡ ok (n ∷ take request nodes, rest)
    one_more request n t nodes rest next at taken =
        let found : load_next next n ≡ ok t = unfold load_next in rw at refl in
        let read : take_chunks (suc request) (some n) next ≡ (
            Base.◌>>=◌ {B = List ℕ × Option ℕ} (load_next next n) λ (t : TaggedPointer).
              Base.◌>>=◌ {B = List ℕ × Option ℕ} (take_chunks request t.ptr next)
                λ (r : List ℕ × Option ℕ). ok (n ∷ r.0, r.1)) =
          unfold take_chunks in refl in
        read ∙ (rw (found, taken) refl)

take_nil : (r : ℕ) → take {A = ℕ} r [] ≡ []
take_nil zero = refl
take_nil (suc r) = refl

drop_nil : (r : ℕ) → drop {A = ℕ} r [] ≡ []
drop_nil zero = refl
drop_nil (suc r) = refl

-- A round on either list takes up to `request` of its nodes.
round_free :
    (request : ℕ) (pool : Pool) (fs hs : List ℕ)
    → Holds pool fs hs
    → (pool' : Pool) × (batch_round false request pool ≡ ok (take request fs, pool'))
      × Holds pool' (drop request fs) hs
round_free request pool [] hs held = (
  pool,
  rw (take_nil request) (
      unfold batch_round in
      take_batch-none request pool.free_list.ptr pool.free_list.ver put_free_list pool held.freed),
  rw (drop_nil request) held,
)
round_free request pool (n ∷ fs) hs held =
    let (rest, taken, left) =
      take_chunks_lem request (some n) pool.next (n ∷ fs) (refl, held.freed.1) in
    (
      record pool {
        free_list = tagged rest (pool.free_list.ver + 1);
        alloc_cnt = pool.alloc_cnt + length (take request (n ∷ fs));
      },
      unfold batch_round take_batch in
          ap (λ (p : Option ℕ). take_batch request p pool.free_list.ver put_free_list pool)
            held.freed.0
          ∙ ap
              (λ (o : Outcome (List ℕ × Option ℕ)).
                Base.◌>>=◌ {B = List ℕ × Pool} o λ (r : List ℕ × Option ℕ). ok (
                  r.0,
                  record pool {
                    free_list = tagged r.1 (pool.free_list.ver + 1);
                    alloc_cnt = pool.alloc_cnt + length r.0;
                  },
                ))
              taken,
      record { freed = left; fresh = held.fresh },
    )

round_head :
    (request : ℕ) (pool : Pool) (fs hs : List ℕ)
    → Holds pool fs hs
    → (pool' : Pool) × (batch_round true request pool ≡ ok (take request hs, pool'))
      × Holds pool' fs (drop request hs)
round_head request pool fs [] held = (
  pool,
  rw (take_nil request) (
      unfold batch_round in
      take_batch-none request pool.head.ptr pool.head.ver put_head pool held.fresh),
  rw (drop_nil request) held,
)
round_head request pool fs (n ∷ hs) held =
    let (rest, taken, left) =
      take_chunks_lem request (some n) pool.next (n ∷ hs) (refl, held.fresh.1) in
    (
      record pool {
        head = tagged rest (pool.head.ver + 1);
        alloc_cnt = pool.alloc_cnt + length (take request (n ∷ hs));
      },
      unfold batch_round take_batch in
          ap (λ (p : Option ℕ). take_batch request p pool.head.ver put_head pool) held.fresh.0
          ∙ ap
              (λ (o : Outcome (List ℕ × Option ℕ)).
                Base.◌>>=◌ {B = List ℕ × Pool} o λ (r : List ℕ × Option ℕ). ok (
                  r.0,
                  record pool {
                    head = tagged r.1 (pool.head.ver + 1);
                    alloc_cnt = pool.alloc_cnt + length r.0;
                  },
                ))
              taken,
      record { freed = held.freed; fresh = left },
    )

loop_step :
    (rounds count : ℕ) (b target : Bool) (pool pool' end : Pool) (chunks more : List ℕ)
    → (if b then true else no_node pool.free_list.ptr) ≡ target
    → batch_round target (min 64 (suc count)) pool ≡ ok (chunks, pool')
    → batch_loop rounds (suc count - length chunks) target pool' ≡ ok (more, end)
    → batch_loop (suc rounds) (suc count) b pool ≡ ok (chunks ++ more, end)
unfolding batch_loop
loop_step rounds count b target pool pool' end chunks more e round rest =
    rw (e, round)
      (ap
        (λ (o : Outcome (List ℕ × Pool)).
          Base.◌>>=◌ {B = List ℕ × Pool} o λ (r : List ℕ × Pool). ok (chunks ++ r.0, r.1))
        rest)

take_rest :
    (r c : ℕ) (xs ys : List ℕ)
    → r ≤ c
    → take r xs ++ take (c - length (take r xs)) (drop r xs ++ ys) ≡ take c (xs ++ ys)
take_rest zero c xs ys h = let all : c - 0 ≡ c = omega arith in rw all refl
take_rest (suc r) c [] ys h = let all : c - 0 ≡ c = omega arith in rw all refl
take_rest (suc r) zero (x ∷ xs) ys h = absurd (omega arith)
take_rest (suc r) (suc c) (x ∷ xs) ys h =
    let less : suc c - suc (length (take r xs)) ≡ c - length (take r xs) = omega arith in
    rw less (ap (◌∷◌ x) (take_rest r c xs ys (omega arith)))

take_own_rest :
    (r c : ℕ) (xs : List ℕ)
    → r ≤ c
    → take r xs ++ take (c - length (take r xs)) (drop r xs) ≡ take c xs
take_own_rest zero c xs h = let all : c - 0 ≡ c = omega arith in rw all refl
take_own_rest (suc r) c [] h = rw (take_nil (c - 0), take_nil c) refl
take_own_rest (suc r) zero (x ∷ xs) h = absurd (omega arith)
take_own_rest (suc r) (suc c) (x ∷ xs) h =
    let less : suc c - suc (length (take r xs)) ≡ c - length (take r xs) = omega arith in
    rw less (ap (◌∷◌ x) (take_own_rest r c xs (omega arith)))

drop_rest : (r c : ℕ) (xs : List ℕ) → r ≤ c → drop (c - length (take r xs)) (drop r xs) ≡ drop c xs
drop_rest zero c xs h = let all : c - 0 ≡ c = omega arith in rw all refl
drop_rest (suc r) c [] h = rw (drop_nil (c - 0), drop_nil c) refl
drop_rest (suc r) zero (x ∷ xs) h = absurd (omega arith)
drop_rest (suc r) (suc c) (x ∷ xs) h =
    let less : suc c - suc (length (take r xs)) ≡ c - length (take r xs) = omega arith in
    rw less (drop_rest r c xs (omega arith))

-- A request of a round on a list that is not empty makes the remaining count smaller.
fewer :
    (count : ℕ) (xs : List ℕ)
    → 0 < length xs
    → suc count - length (take (min 64 (suc count)) xs) ≤ count
fewer count xs h = omega (arith, h, length-take (min 64 (suc count)) xs)

enough_rest :
    (r c more : ℕ) (xs : List ℕ)
    → r ≤ c
    → c ≤ length xs + more
    → c - length (take r xs) ≤ length (drop r xs) + more
enough_rest r c more xs h enough = omega (arith, h, enough, length-take r xs, length-drop r xs)

batch_head :
    (rounds count : ℕ) (pool : Pool) (fs hs : List ℕ)
    → Holds pool fs hs
    → count ≤ length hs + 0
    → count < rounds
    → (end : Pool) × (batch_loop rounds count true pool ≡ ok (take count hs, end))
      × Holds end fs (drop count hs)
batch_head zero count pool fs hs held enough h = absurd (omega (arith, h))
batch_head (suc rounds) zero pool fs hs held enough h = (pool, unfold batch_loop in refl, held)
batch_head (suc rounds) (suc count) pool fs hs held enough h =
    let r = min 64 (suc count) in
    let small : r ≤ suc count = omega arith in
    let (pool', round, held') = round_head r pool fs hs held in
    let less : suc count - length (take r hs) < rounds =
      omega (arith, h, fewer count hs (omega (arith, enough))) in
    let (end, rest, held'') =
      batch_head rounds (suc count - length (take r hs)) pool' fs (drop r hs) held'
        (enough_rest r (suc count) 0 hs small enough) less in
    (
      end,
      loop_step rounds count true true pool pool' end (take r hs)
            (take (suc count - length (take r hs)) (drop r hs)) refl round rest
          ∙ ap (λ (xs : List ℕ). ok (xs, end)) (take_own_rest r (suc count) hs small),
      subst (Holds end fs) (drop_rest r (suc count) hs small) held'',
    )

-- A batch of as many nodes as there are on the two lists, or fewer, is found in as many rounds and one more: it is
-- the nodes freed last, in their order, then the nodes never used, and each list keeps its other nodes.
pub batch_loop-take :
    (rounds count : ℕ) (pool : Pool) (fs hs : List ℕ)
    → Holds pool fs hs
    → count ≤ length fs + length hs
    → count < rounds
    → (end : Pool) × (batch_loop rounds count false pool ≡ ok (take count (fs ++ hs), end))
      × Holds end (drop count fs) (drop (count - length fs) hs)
batch_loop-take zero count pool fs hs held enough h = absurd (omega (arith, h))
batch_loop-take (suc rounds) zero pool fs hs held enough h =
    let none_of : 0 - length fs ≡ 0 = omega arith in
    (pool, unfold batch_loop in refl, rw none_of held)
batch_loop-take (suc rounds) (suc count) pool [] hs held enough h =
    let r = min 64 (suc count) in
    let small : r ≤ suc count = omega arith in
    let (pool', round, held') = round_head r pool [] hs held in
    let less : suc count - length (take r hs) < rounds =
      omega (arith, h, fewer count hs (omega (arith, enough))) in
    let (end, rest, held'') =
      batch_head rounds (suc count - length (take r hs)) pool' [] (drop r hs) held'
        (enough_rest r (suc count) 0 hs small (omega (arith, enough))) less in
    let all : suc count - 0 ≡ suc count = omega arith in
    (
      end,
      loop_step rounds count false true pool pool' end (take r hs)
            (take (suc count - length (take r hs)) (drop r hs)) (ap no_node held.freed) round rest
          ∙ ap (λ (xs : List ℕ). ok (xs, end)) (take_own_rest r (suc count) hs small),
      rw all (subst (Holds end []) (drop_rest r (suc count) hs small) held''),
    )
batch_loop-take (suc rounds) (suc count) pool (n ∷ fs) hs held enough h =
    let r = min 64 (suc count) in
    let small : r ≤ suc count = omega arith in
    let xs = n ∷ fs in
    let (pool', round, held') = round_free r pool xs hs held in
    let less : suc count - length (take r xs) < rounds =
      omega (arith, h, fewer count xs (omega arith)) in
    let (end, rest, held'') =
      batch_loop-take rounds (suc count - length (take r xs)) pool' (drop r xs) hs held'
        (enough_rest r (suc count) (length hs) xs small enough) less in
    let same : suc count - length (take r xs) - length (drop r xs) ≡ suc count - length xs =
      omega (arith, small, length-take r xs, length-drop r xs) in
    (
      end,
      loop_step rounds count false false pool pool' end (take r xs)
            (take (suc count - length (take r xs)) (drop r xs ++ hs)) (ap no_node held.freed.0)
            round rest
          ∙ ap (λ (ys : List ℕ). ok (ys, end)) (take_rest r (suc count) xs hs small),
      subst (λ (ys : List ℕ). Holds end ys (drop (suc count - length xs) hs))
          (drop_rest r (suc count) xs small)
          (subst
            (λ (m : ℕ). Holds end (drop (suc count - length (take r xs)) (drop r xs)) (drop m hs))
            same held''),
    )
