-- ===== src/HashMap/Lookup.antt =====
-- The operations of src/hashmap.c as a map: what `hashmap_get` answers after `hashmap_set` and
-- `hashmap_remove`, over every growth of the table.
use joker_complier.Base.{
  ℕ, ◌+◌, ◌≡◌, sym, ◌∙◌, Bool, true, false, not, none, some, arith, ok, ◌==◌, if◌then◌else◌,
  get_elem?, set, Bool-cases, inl, inr,
}
use joker_complier.Value.{Value, null, boolean}
use joker_complier.HashMap.{
  JString, Entry, HashMap, entry, is_empty_entry, is_none_key, init_hashmap, find_entry,
  hashmap_set, hashmap_get, hashmap_contains_key, hashmap_remove,
}
use joker_complier.HashMap.Mask.{pow2}
use joker_complier.HashMap.Probe.{At, Finds, hit, miss, entry_at-ok}
use joker_complier.HashMap.Write.{
  Has, used-set, used-none, Written, write_entry-Written, clear_entry-Removed,
}
use joker_complier.HashMap.Table.{IsTable, IsValid, Roomy, make_room-Roomy, find-Finds}

module _ (strings : ℕ → JString) where
  -- What an operation sees of a key: its entry, or none at the end of the probe, or an empty table.
  pub data Sees (m : HashMap) (key : ℕ) : Type 0 where
    present :
        (r : ℕ) (v : Value)
        → (m.count == 0) ≡ false
        → find_entry strings m.entries m.capacity key ≡ ok r
        → At m.entries r key v
        → Sees m key
    missing :
        (r : ℕ) (w : Value)
        → find_entry strings m.entries m.capacity key ≡ ok r
        → get_elem? m.entries r ≡ some (entry none w)
        → ((v : Value) → Has m.entries key v → ⊥)
        → Sees m key
    empty : (m.count == 0) ≡ true → ((v : Value) → Has m.entries key v → ⊥) → Sees m key

  no_entries : (m : HashMap) → m ≡ init_hashmap → (q : ℕ) (v : Value) → Has m.entries q v → ⊥
  unfolding init_hashmap
  no_entries m e q v (i, at) = let none_at : none ≡ some (entry (some q) v) = rw e at at in cc

  pub IsValid-Sees : (m : HashMap) (key : ℕ) → IsValid strings m → Sees m key
  IsValid-Sees m key (inl e) = empty (zero_count m e) (no_entries m e key)
    where
      zero_count : (m : HashMap) → m ≡ init_hashmap → (m.count == 0) ≡ true
      zero_count m e = unfold init_hashmap in rw e
  IsValid-Sees m key (inr t) = elim (Bool-cases (m.count == 0)) [
    | inl nothing ↦ empty nothing (used-none m.entries (ground (arith, t.counted)) key)
    | inr some_count ↦ let (r, e, f) = find-Finds strings m t key in go r some_count e f
  ]
    where
      go :
          {n : ℕ} (r : ℕ)
          → (m.count == 0) ≡ false
          → find_entry strings m.entries m.capacity key ≡ ok r
          → Finds strings n m.entries key r
          → Sees m key
      go r n e (hit v at) = present r v n e at
      go r n e (miss w lt free absent passed) = missing r w e free (λ v (i, at). absent i v at)

  -- The answers of the three searches.
  pub get-present :
      (m : HashMap) (key r : ℕ) (v : Value)
      → (m.count == 0) ≡ false
      → find_entry strings m.entries m.capacity key ≡ ok r
      → At m.entries r key v
      → (hashmap_get strings m key ≡ ok v) × (hashmap_contains_key strings m key ≡ ok true)
  unfolding hashmap_get hashmap_contains_key
  get-present m key r v n e at =
      (rw (n, e, entry_at-ok m.entries r at), rw (n, e, entry_at-ok m.entries r at))

  pub get-absent :
      (m : HashMap) (key : ℕ)
      → Sees m key
      → ((v : Value) → Has m.entries key v → ⊥)
      → (hashmap_get strings m key ≡ ok null) × (hashmap_contains_key strings m key ≡ ok false)
  unfolding hashmap_get hashmap_contains_key
  get-absent m key (present r v n e at) h = absurd (h v (r, at))
  get-absent m key (missing r w e free lacks) h = elim (Bool-cases (m.count == 0)) [
    | inl nothing ↦ (rw nothing, rw nothing)
    | inr n ↦ (rw (n, e, entry_at-ok m.entries r free), rw (n, e, entry_at-ok m.entries r free))
  ]
  get-absent m key (empty n lacks) h = (rw n, rw n)

  pub get-Has :
      (m : HashMap) (key : ℕ) (v : Value)
      → IsValid strings m
      → Has m.entries key v
      → (hashmap_get strings m key ≡ ok v) × (hashmap_contains_key strings m key ≡ ok true)
  get-Has m key v (inl e) h = absurd (no_entries m e key v h)
  get-Has m key v (inr t) (i, at) = go (IsValid-Sees m key (inr t))
    where
      go :
          Sees m key
          → (hashmap_get strings m key ≡ ok v) × (hashmap_contains_key strings m key ≡ ok true)
      go (present r w n e atr) =
          let same : r ≡ i = t.placed.once r i key w v atr at in
          get-present m key r v n e (rw same at)
      go (missing r w e free lacks) = absurd (lacks v (i, at))
      go (empty n lacks) = absurd (lacks v (i, at))

  -- Tables that agree on a key give the same answer.
  pub get_congr :
      (m m' : HashMap) (q : ℕ)
      → IsValid strings m
      → IsValid strings m'
      → ((v : Value) → Has m.entries q v → Has m'.entries q v)
      → ((v : Value) → Has m'.entries q v → Has m.entries q v)
      → hashmap_get strings m' q ≡ hashmap_get strings m q
  get_congr m m' q valid valid' to from = go (IsValid-Sees m q valid)
    where
      none_there :
          ((v : Value) → Has m.entries q v → ⊥) → hashmap_get strings m' q ≡ hashmap_get strings m q
      none_there lacks =
          (get-absent m' q (IsValid-Sees m' q valid') (λ v h. lacks v (from v h))).0
          ∙ sym (get-absent m q (IsValid-Sees m q valid) lacks).0

      go : Sees m q → hashmap_get strings m' q ≡ hashmap_get strings m q
      go (present r v n e at) =
          (get-Has m' q v valid' (to v (r, at))).0 ∙ sym (get-Has m q v valid (r, at)).0
      go (missing r w e free lacks) = none_there lacks
      go (empty n lacks) = none_there lacks

  -- The entry that `hashmap_set` writes over, and whether the key was there.
  slot_of :
      (m m' : HashMap) (n key r : ℕ)
      → IsValid strings m
      → Roomy strings m m'
      → Finds strings n m'.entries key r
      → (x : Entry) × (get_elem? m'.entries r ≡ some x)
        × (hashmap_contains_key strings m key ≡ ok (not (is_none_key x.key)))
  slot_of m m' n key r valid rm (hit v at) =
      (entry (some key) v, at, (get-Has m key v valid (rm.same.1 key v (r, at))).1)
  slot_of m m' n key r valid rm (miss w lt free absent passed) = (
    entry none w,
    free,
    (get-absent m key (IsValid-Sees m key valid)
        (λ v h. let (i, at) = rm.same.0 key v h in absent i v at)).1,
  )

  -- The table after the write.
  set_table : HashMap → ℕ → Entry → ℕ → Value → HashMap
  set_table m r x key v = record m {
    count = if is_empty_entry x then m.count + 1 else m.count;
    entries = set m.entries r (entry (some key) v);
  }

  set_table-IsTable :
      (m m' : HashMap) (rm : Roomy strings m m') (r : ℕ) (x : Entry) (key : ℕ) (v : Value)
      → get_elem? m'.entries r ≡ some x
      → Written strings
          (pow2 (rm.table.level))
          m'.entries
          (set m'.entries r (entry (some key) v))
          key
          v
      → IsTable strings (set_table m' r x key v)
  unfolding set_table is_empty_entry
  set_table-IsTable m m' rm r x key v at w =
      let t = rm.table in
      let grown = used-set m'.entries r x (entry (some key) v) at in
      record {
        level = t.level;
        capacity = t.capacity;
        big = t.big;
        placed = w.placed;
        counted = ground (arith, t.counted, grown);
        load = ground (arith, t.load, rm.room);
      }

  -- `hashmap_set` on any valid table ends, keeps it valid, stores the value under the key, leaves
  -- what `hashmap_get` answers for every other key, and tells whether the key was new.
  pub hashmap_set-get :
      (m : HashMap) (key : ℕ) (v : Value)
      → IsValid strings m
      → (b : Bool) × (m' : HashMap) × (hashmap_set strings m key v ≡ ok (b, m'))
        × IsValid strings m'
        × (hashmap_contains_key strings m key ≡ ok (not b))
        × ((q : ℕ)
            → hashmap_get strings m' q ≡ (if q == key then ok v else hashmap_get strings m q))
  unfolding hashmap_set set_table
  hashmap_set-get m key v valid =
      let (m₁, made, rm) = make_room-Roomy strings m valid in
      let (r, found, f) = find-Finds strings m₁ rm.table key in
      let (x, at, known) = slot_of m m₁ _ key r valid rm f in
      let w = write_entry-Written strings _ m₁.entries key r v rm.table.placed f in
      let valid' : IsValid strings (set_table m₁ r x key v) =
        inr (set_table-IsTable m m₁ rm r x key v at w) in
      (
        is_none_key x.key,
        set_table m₁ r x key v,
        rw (made, found, entry_at-ok m₁.entries r at),
        valid',
        known,
        λ q. elim (Bool-cases (q == key)) [
          | inl same ↦
              let eq : q ≡ key = ground arith in
              rw (same, eq) (get-Has (set_table m₁ r x key v) key v valid' w.stored).0
          | inr other ↦ rw other (
              get_congr m (set_table m₁ r x key v) q valid valid'
                (λ u h. w.keeps q u other (rm.same.0 q u h))
                (λ u h. rm.same.1 q u (w.adds_nothing q u other h)))
        ],
      )

  abbrev Forgets : HashMap → ℕ → Type 0
  Forgets m key =
      (b : Bool) × (m' : HashMap) × (hashmap_remove strings m key ≡ ok (b, m'))
      × IsValid strings m'
      × (hashmap_contains_key strings m key ≡ ok b)
      × ((q : ℕ)
          → hashmap_get strings m' q ≡ (if q == key then ok null else hashmap_get strings m q))

  -- Nothing to remove.
  remove_absent :
      (m : HashMap) (key : ℕ)
      → IsValid strings m
      → ((v : Value) → Has m.entries key v → ⊥)
      → hashmap_remove strings m key ≡ ok (false, m)
      → Forgets m key
  remove_absent m key valid lacks e =
      let (answers, known) = get-absent m key (IsValid-Sees m key valid) lacks in
      (
        false,
        m,
        e,
        valid,
        known,
        λ q. elim (Bool-cases (q == key)) [
          | inl same ↦ let eq : q ≡ key = ground arith in rw (same, eq) answers
          | inr other ↦ rw other
        ],
      )

  remove_present :
      (m : HashMap) (key r : ℕ) (v : Value)
      → IsTable strings m
      → (m.count == 0) ≡ false
      → find_entry strings m.entries m.capacity key ≡ ok r
      → At m.entries r key v
      → Forgets m key
  unfolding hashmap_remove
  remove_present m key r v t n e at =
      let gone = clear_entry-Removed strings (pow2 t.level) m.entries key r v t.placed at in
      let m' : HashMap = record m { entries = set m.entries r (entry none (boolean true)) } in
      let valid' : IsValid strings m' = inr (record {
        level = t.level;
        capacity = t.capacity;
        big = t.big;
        placed = gone.placed;
        counted = t.counted ∙ sym gone.in_use;
        load = t.load;
      }) in
      (
        true,
        m',
        rw (n, e, entry_at-ok m.entries r at),
        valid',
        (get-present m key r v n e at).1,
        λ q. elim (Bool-cases (q == key)) [
          | inl same ↦
              let eq : q ≡ key = ground arith in
              rw (same, eq) (get-absent m' key (IsValid-Sees m' key valid') gone.gone).0
          | inr other ↦ rw other (
              get_congr m m' q (inr t) valid' (λ u h. gone.keeps q u other h)
                (λ u h. gone.adds_nothing q u h))
        ],
      )

  -- `hashmap_remove` on any valid table ends, keeps it valid, makes the key answer null, leaves what
  -- `hashmap_get` answers for every other key, and tells whether the key was there.
  pub hashmap_remove-get :
      (m : HashMap) (key : ℕ)
      → IsValid strings m
      → (b : Bool) × (m' : HashMap) × (hashmap_remove strings m key ≡ ok (b, m'))
        × IsValid strings m'
        × (hashmap_contains_key strings m key ≡ ok b)
        × ((q : ℕ)
            → hashmap_get strings m' q ≡ (if q == key then ok null else hashmap_get strings m q))
  unfolding hashmap_remove
  hashmap_remove-get m key (inl e) =
      remove_absent m key (inl e) (no_entries m e key) (unfold init_hashmap in rw e)
  hashmap_remove-get m key (inr t) = go (IsValid-Sees m key (inr t))
    where
      go : Sees m key → Forgets m key
      go (present r v n e at) = remove_present m key r v t n e at
      go (missing r w e free lacks) =
          remove_absent m key (inr t) lacks (elim (Bool-cases (m.count == 0)) [
            | inl nothing ↦ rw nothing
            | inr n ↦ rw (n, e, entry_at-ok m.entries r free)
          ])
      go (empty n lacks) = remove_absent m key (inr t) lacks (rw n)
