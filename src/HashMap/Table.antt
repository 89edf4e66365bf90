-- ===== src/HashMap/Table.antt =====
-- The table of src/hashmap.c as a whole: its invariant, and what room is made for.
use joker_complier.Base.{
  ℕ, suc, ◌+◌, ◌*◌, ◌≤◌, ◌≡◌, refl, [], arith, ok, ltb, Bool-cases, ◌⊎◌, inl, inr,
}
use joker_complier.Memory.{grow_capacity}
use joker_complier.Value.{Value}
use joker_complier.HashMap.{JString, HashMap, init_hashmap, adjust_capacity, make_room, find_entry}
use joker_complier.HashMap.Mask.{pow2}
use joker_complier.HashMap.Probe.{At, WellPlaced, Finds, find_entry-Finds}
use joker_complier.HashMap.Write.{Has, used, free_slot}
use joker_complier.HashMap.Resize.{
  keys, keys-le-used, Copying-start, copy_entries-Copied, used-fresh, fresh_none,
}

module _ (strings : ℕ → JString) where
  -- A table that has entries: a power of two of them, at most three quarters in use.
  pub record IsTable (m : HashMap) : Type 0 where
    pub level : ℕ
    pub capacity : m.capacity ≡ pow2 level
    pub big : 8 ≤ m.capacity
    pub placed : WellPlaced strings (pow2 level) m.entries
    pub counted : m.count ≡ used m.entries
    pub load : m.count * 4 ≤ m.capacity * 3

  -- A table in any state between operations.
  abbrev pub IsValid : HashMap → Type 0
  IsValid m = (m ≡ init_hashmap) ⊎ IsTable m

  -- Both tables hold the same keys with the same values.
  abbrev pub SameKeys : HashMap → HashMap → Type 0
  SameKeys m m' =
      ((q : ℕ) (v : Value) → Has m.entries q v → Has m'.entries q v)
      × ((q : ℕ) (v : Value) → Has m'.entries q v → Has m.entries q v)

  pub record Roomy (m m' : HashMap) : Type 0 where
    pub table : IsTable m'
    pub room : (m'.count + 1) * 4 ≤ m'.capacity * 3
    pub same : SameKeys m m'

  -- A table into which all keys of `m` fit, with room for one more.
  adjust_capacity-Roomy :
      (m : HashMap) (k : ℕ)
      → ((i j key : ℕ) (v w : Value) → At m.entries i key v → At m.entries j key w → i ≡ j)
      → (keys m.entries + 1) * 4 ≤ pow2 k * 3
      → 8 ≤ pow2 k
      → (m' : HashMap) × (adjust_capacity strings m (pow2 k) ≡ ok m') × Roomy m m'
  unfolding adjust_capacity
  adjust_capacity-Roomy m k once fits big =
      let start = Copying-start strings k m.entries once (omega arith) in
      let (es, count, copied, c) = copy_entries-Copied strings k m.entries _ 0 start in
      (
        record { count = count; capacity = pow2 k; entries = es },
        rw copied,
        record {
          table = record {
            level = k;
            capacity = refl;
            big = big;
            placed = c.placed;
            counted = omega (arith, c.counted, c.in_use, used-fresh (pow2 k));
            load = omega (arith, c.counted);
          };
          room = omega (arith, c.counted);
          same = (
            λ q v h. c.has q v (inr h),
            λ q v h. elim (c.only q v h) [
              | inl (i, at) ↦ absurd (fresh_none (pow2 k) i q v at)
              | inr old ↦ old
            ],
          );
        },
      )

  -- The load test and the growth of `hashmap_set` on any valid table end, and the table then has
  -- room for one more key and holds the same keys with the same values.
  pub make_room-Roomy :
      (m : HashMap) → IsValid m → (m' : HashMap) × (make_room strings m ≡ ok m') × Roomy m m'
  unfolding make_room init_hashmap grow_capacity
  make_room-Roomy m (inl empty) = rw empty (
      adjust_capacity-Roomy (record { count = 0; capacity = 0; entries = [] }) 3
        (λ i j key v w a b. cc) (omega arith) (omega arith))
  make_room-Roomy m (inr t) = elim (Bool-cases (ltb (m.capacity * 3) ((m.count + 1) * 4))) [
    | inl full ↦
        let bigger : grow_capacity m.capacity ≡ pow2 (suc t.level) =
          ground (arith, t.capacity, t.big) in
        rw (full, bigger)
          (adjust_capacity-Roomy m (suc t.level) t.placed.once
            (omega (arith, t.load, t.big, t.capacity, t.counted, keys-le-used m.entries))
            (omega (arith, t.big, t.capacity)))
    | inr room ↦
        rw room
          (m, refl, record { table = t; room = ground arith; same = (λ q v h. h, λ q v h. h) })
  ]

  -- In a table with entries the probe for any key ends.
  pub find-Finds :
      (m : HashMap) (t : IsTable m) (key : ℕ)
      → (r : ℕ) × (find_entry strings m.entries m.capacity key ≡ ok r)
        × Finds strings (pow2 t.level) m.entries key r
  find-Finds m t key =
      let (z, hz, ez) =
        free_slot m.entries
          (rw t.placed.size (omega (arith, t.load, t.counted, t.capacity, t.big))) in
      rw t.capacity
        (find_entry-Finds strings m.entries t.level key t.placed z (rw t.placed.size at hz) ez)
