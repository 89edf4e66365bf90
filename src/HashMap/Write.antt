-- ===== src/HashMap/Write.antt =====
-- A write of src/hashmap.c through the entry that `find_entry` returned, and the count of used slots.
use joker_complier.Base.{
  ℕ, zero, suc, ◌+◌, ◌<◌, ◌≡◌, refl, sym, ap, ◌∙◌, true, false, Option, none, some, List, [], ◌∷◌,
  arith, ◌==◌, if◌then◌else◌, length, get_elem?, set, get_elem?-set, get_elem?-lt, length-set,
  Bool-cases, ◌⊎◌, inl, inr,
}
use joker_complier.Value.{Value, i32, i64, f32, f64, boolean, object, none_value, null, is_null}
use joker_complier.HashMap.{JString, Entry, entry, is_empty_entry}
use joker_complier.HashMap.Probe.{At, Busy, WellPlaced, Finds, hit, miss, distance, home, probe}

-- Some slot holds `key` with value `v`.
abbrev pub Has : List Entry → ℕ → Value → Type 0
Has es key v = (i : ℕ) × At es i key v

abbrev pub weight : Entry → ℕ
weight e = if is_empty_entry e then 0 else 1

-- The slots in use, those of removed keys included.
unfoldable pub used : List Entry → ℕ
used [] = 0
used (e ∷ es) = weight e + used es

pub used-set :
    (es : List Entry) (r : ℕ) (e x : Entry)
    → get_elem? es r ≡ some e
    → used (set es r x) + weight e ≡ used es + weight x
unfolding used
used-set [] r e x at = cc
used-set (y ∷ es) zero e x at = let same : y ≡ e = cc in rw same (omega arith)
used-set (y ∷ es) (suc r) e x at = omega (arith, used-set es r e x at)

is_null-null : (v : Value) → is_null v ≡ true → v ≡ null
is_null-null null e = refl
is_null-null (i32 _) e = cc
is_null-null (i64 _) e = cc
is_null-null (f32 _) e = cc
is_null-null (f64 _) e = cc
is_null-null (boolean _) e = cc
is_null-null (object _) e = cc
is_null-null none_value e = cc

empty_entry_eq :
    (k : Option ℕ) (v : Value) → is_empty_entry (entry k v) ≡ true → entry k v ≡ entry none null
unfolding is_empty_entry
empty_entry_eq none v e = ap (entry none) (is_null-null v e)
empty_entry_eq (some k) v e = cc

-- With a slot to spare there is one that was never used.
pub free_slot :
    (es : List Entry)
    → used es < length es
    → (z : ℕ) × (z < length es) × (get_elem? es z ≡ some (entry none null))
unfolding used
free_slot [] h = absurd (omega arith)
free_slot (e ∷ es) h = elim (Bool-cases (is_empty_entry e)) [
  | inl empty ↦ (0, omega arith, ap some (empty_entry_eq e.key e.value empty))
  | inr full ↦
      let more : used es < length es = ground arith in
      let (z, lt, at) = free_slot es more in (suc z, omega arith, at)
]

pub used-none : (es : List Entry) → used es ≡ 0 → (key : ℕ) (v : Value) → Has es key v → ⊥
unfolding used is_empty_entry
used-none [] h key v (i, at) = cc
used-none (e ∷ es) h key v (zero, at) =
    let same : e ≡ entry (some key) v = cc in let busy : weight e ≡ 1 = rw same in omega arith
used-none (e ∷ es) h key v (suc i, at) = used-none es (omega arith) key v (i, at)

module _ (strings : ℕ → JString) where
  -- The entries after `entries[r] = (key, v)`, against those before.
  pub record Written (n : ℕ) (es es' : List Entry) (key : ℕ) (v : Value) : Type 0 where
    pub placed : WellPlaced strings n es'
    pub stored : Has es' key v
    pub only : (w : Value) → Has es' key w → w ≡ v
    pub keeps : (q : ℕ) (w : Value) → (q == key) ≡ false → Has es q w → Has es' q w
    pub adds_nothing : (q : ℕ) (w : Value) → (q == key) ≡ false → Has es' q w → Has es q w

  module _ (n : ℕ) (es : List Entry) (key r : ℕ) (v : Value) (placed : WellPlaced strings n es)
      (found : Finds strings n es key r) where
    found_lt : r < length es
    found_lt = go found
      where
        go : Finds strings n es key r → r < length es
        go (hit w at) = get_elem?-lt es r _ at
        go (miss w lt at none_here passed) = get_elem?-lt es r _ at

    es' : List Entry
    es' = set es r (entry (some key) v)

    read :
        (i : ℕ) → get_elem? es' i ≡ (if r == i then some (entry (some key) v) else get_elem? es i)
    unfolding es'
    read i = get_elem?-set es r i (entry (some key) v) found_lt

    -- A slot after the write: the one written, or another one as it was.
    after :
        (i q : ℕ) (w : Value)
        → At es' i q w
        → ((i ≡ r) × (q ≡ key) × (w ≡ v)) ⊎ (((r == i) ≡ false) × At es i q w)
    after i q w at = elim (Bool-cases (r == i)) [
      | inl here ↦
          let same : some (entry (some key) v) ≡ some (entry (some q) w) =
            rw here at (rw (read i) at at) in
          inl (ground arith, ground arith, ground arith)
      | inr there ↦ inr (there, rw there at (rw (read i) at at))
    ]

    before : (i q : ℕ) (w : Value) → (r == i) ≡ false → At es i q w → At es' i q w
    before i q w there at = rw (read i) (rw there at)

    new : At es' r key v
    new = let same : (r == r) ≡ true = ground arith in rw (read r) (rw same)

    Busy-after : (i : ℕ) → Busy es i → Busy es' i
    unfolding is_empty_entry
    Busy-after i (e, at, busy) = elim (Bool-cases (r == i)) [
      | inl here ↦ (entry (some key) v, rw (read i) (rw here), refl)
      | inr there ↦ (e, rw (read i) (rw there at), busy)
    ]

    -- The key stands nowhere else.
    nowhere : Finds strings n es key r → (i : ℕ) (w : Value) → At es i key w → i ≡ r
    nowhere (hit u atr) i w at = placed.once i r key w u at atr
    nowhere (miss u lt free absent passed) i w at = absurd (absent i w at)

    path_to :
        Finds strings n es key r
        → (d : ℕ) → d < distance n (home strings n key) r
        → Busy es (probe strings n key d)
    path_to (hit u atr) d h = placed.passes r key u d atr h
    path_to (miss u lt free absent passed) d h = passed d h

    clash : Finds strings n es key r → (q : ℕ) (w : Value) → (q == key) ≡ false → At es r q w → ⊥
    clash (hit u atr) q w ne at =
        let same : some (entry (some key) u) ≡ some (entry (some q) w) = sym atr ∙ at in
        ground arith
    clash (miss u lt free absent passed) q w ne at =
        let same : some (entry none u) ≡ some (entry (some q) w) = sym free ∙ at in cc

    -- A slot that holds another key is not the one written.
    other_slot :
        Finds strings n es key r
        → (i q : ℕ) (w : Value) → (q == key) ≡ false
        → At es i q w
        → (r == i) ≡ false
    other_slot f i q w ne at = elim (Bool-cases (r == i)) [
      | inl here ↦ let eq : i ≡ r = ground arith in absurd (clash f q w ne (rw eq at at))
      | inr there ↦ there
    ]

    pub write_entry-Written : Written n es (set es r (entry (some key) v)) key v
    unfolding es'
    write_entry-Written = record {
      placed = record {
        size = length-set es r _ ∙ placed.size;
        passes = λ i q w d at h. Busy-after _ (elim (after i q w at) [
          | inl (ir, qk, wv) ↦ rw qk (path_to found d (rw (ir, qk) at h))
          | inr (there, old) ↦ placed.passes i q w d old h
        ]);
        once = λ i j q w u ati atj. elim (after i q w ati) [
          | inl (ir, qk, wv) ↦ elim (after j q u atj) [
            | inl (jr, _, _) ↦ ir ∙ sym jr
            | inr (there, old) ↦ ir ∙ sym (nowhere found j u (rw qk at old))
          ]
          | inr (there, old) ↦ elim (after j q u atj) [
            | inl (jr, qk, _) ↦ nowhere found i w (rw qk at old) ∙ sym jr
            | inr (there', old') ↦ placed.once i j q w u old old'
          ]
        ];
      };
      stored = (r, new);
      only = λ w (i, at). elim (after i key w at) [
        | inl (_, _, wv) ↦ wv
        | inr (there, old) ↦ let eq = nowhere found i w old in absurd (ground arith)
      ];
      keeps = λ q w ne (i, at). (i, before i q w (other_slot found i q w ne at) at);
      adds_nothing = λ q w ne (i, at). elim (after i q w at) [
        | inl (_, qk, _) ↦ absurd (ground arith)
        | inr (there, old) ↦ (i, old)
      ];
    }

  -- The entries after `entries[r] = tombstone`, where slot `r` held `key`.
  pub record Removed (n : ℕ) (es es' : List Entry) (key : ℕ) : Type 0 where
    pub placed : WellPlaced strings n es'
    pub gone : (w : Value) → Has es' key w → ⊥
    pub keeps : (q : ℕ) (w : Value) → (q == key) ≡ false → Has es q w → Has es' q w
    pub adds_nothing : (q : ℕ) (w : Value) → Has es' q w → Has es q w
    pub in_use : used es' ≡ used es

  module _ (n : ℕ) (es : List Entry) (key r : ℕ) (u : Value) (placed : WellPlaced strings n es)
      (at_r : At es r key u) where
    cleared : List Entry
    cleared = set es r (entry none (boolean true))

    read_cleared :
        (i : ℕ)
        → get_elem? cleared i
          ≡ (if r == i then some (entry none (boolean true)) else get_elem? es i)
    unfolding cleared
    read_cleared i = get_elem?-set es r i _ (get_elem?-lt es r _ at_r)

    kept : (i q : ℕ) (w : Value) → At cleared i q w → ((r == i) ≡ false) × At es i q w
    kept i q w at = elim (Bool-cases (r == i)) [
      | inl here ↦
          let same : some (entry none (boolean true)) ≡ some (entry (some q) w) =
            rw here at (rw (read_cleared i) at at) in
          cc
      | inr there ↦ (there, rw there at (rw (read_cleared i) at at))
    ]

    Busy-cleared : (i : ℕ) → Busy es i → Busy cleared i
    unfolding is_empty_entry
    Busy-cleared i (e, at, busy) = elim (Bool-cases (r == i)) [
      | inl here ↦ (entry none (boolean true), rw (read_cleared i) (rw here), refl)
      | inr there ↦ (e, rw (read_cleared i) (rw there at), busy)
    ]

    pub clear_entry-Removed : Removed n es (set es r (entry none (boolean true))) key
    unfolding cleared is_empty_entry
    clear_entry-Removed = record {
      placed = record {
        size = length-set es r _ ∙ placed.size;
        passes = λ i q w d at h. Busy-cleared _ (placed.passes i q w d (kept i q w at).1 h);
        once = λ i j q w x a b. placed.once i j q w x (kept i q w a).1 (kept j q x b).1;
      };
      gone = λ w (i, at).
          let (there, old) = kept i key w at in
          let same = placed.once r i key u w at_r old in absurd (ground arith);
      keeps = λ q w ne (i, at). elim (Bool-cases (r == i)) [
        | inl here ↦
            let eq : i ≡ r = ground arith in
            let same : some (entry (some key) u) ≡ some (entry (some q) w) =
              sym at_r ∙ rw eq at at in
            absurd (ground arith)
        | inr there ↦ (i, rw (read_cleared i) (rw there at))
      ];
      adds_nothing = λ q w (i, at). (i, (kept i q w at).1);
      in_use = omega (arith, used-set es r _ (entry none (boolean true)) at_r);
    }
