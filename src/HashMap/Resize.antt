-- ===== src/HashMap/Resize.antt =====
-- `adjust_capacity` of src/hashmap.c: the entries of the old table in a new, larger one.
use joker_complier.Base.{
  ℕ, zero, suc, ◌+◌, ◌≤◌, ◌<◌, ◌≡◌, refl, Option, none, some, List, [], ◌∷◌, arith, ok, ◌==◌,
  if◌then◌else◌, length, get_elem?, set, replicate, get_elem?-set, get_elem?-lt, length-replicate,
  Bool-cases, ◌⊎◌, inl, inr,
}
use joker_complier.Value.{Value, null}
use joker_complier.HashMap.{
  JString, Entry, entry, is_empty_entry, is_none_key, copy_entries, find_entry,
}
use joker_complier.HashMap.Mask.{pow2}
use joker_complier.HashMap.Probe.{At, WellPlaced, Finds, hit, miss, find_entry-Finds}
use joker_complier.HashMap.Write.{Has, used, used-set, free_slot, Written, write_entry-Written}

-- The entries with a key.
abbrev pub keys : List Entry → ℕ
keys [] = 0
keys (e ∷ es) = (if is_none_key e.key then 0 else 1) + keys es

pub keys-le-used : (es : List Entry) → keys es ≤ used es
unfolding used is_empty_entry
keys-le-used [] = omega arith
keys-le-used (e ∷ es) = ground (arith, keys-le-used es)

-- No key stands twice in a list of entries.
abbrev pub Once : List Entry → Type 0
Once es = (i j key : ℕ) (v w : Value) → At es i key v → At es j key w → i ≡ j

-- No slot holds a tombstone.
abbrev pub Clean : List Entry → Type 0
Clean es = (i : ℕ) (w : Value) → get_elem? es i ≡ some (entry none w) → w ≡ null

Clean-set :
    (es : List Entry) (r key : ℕ) (v : Value)
    → r < length es
    → Clean es
    → Clean (set es r (entry (some key) v))
Clean-set es r key v lt clean i w at = elim (Bool-cases (r == i)) [
  | inl here ↦
      let same : some (entry (some key) v) ≡ some (entry none w) =
        rw here at (rw (get_elem?-set es r i (entry (some key) v) lt) at at) in
      cc
  | inr there ↦ clean i w (rw there at (rw (get_elem?-set es r i (entry (some key) v) lt) at at))
]

fresh_at :
    (n i : ℕ) (e : Entry)
    → get_elem? (replicate n (entry none null)) i ≡ some e
    → e ≡ entry none null
fresh_at zero i e at = cc
fresh_at (suc n) zero e at = cc
fresh_at (suc n) (suc i) e at = fresh_at n i e at

pub fresh_none : (n i q : ℕ) (v : Value) → At (replicate n (entry none null)) i q v → ⊥
fresh_none n i q v at = let same = fresh_at n i _ at in cc

pub used-fresh : (n : ℕ) → used (replicate n (entry none null)) ≡ 0
unfolding used is_empty_entry
used-fresh zero = refl
used-fresh (suc n) = omega (arith, used-fresh n)

module _ (strings : ℕ → JString) where
  pub fresh-WellPlaced : (n : ℕ) → WellPlaced strings n (replicate n (entry none null))
  fresh-WellPlaced n = record {
    size = length-replicate n _;
    passes = λ i q v d at h. absurd (fresh_none n i q v at);
    once = λ i j q v w at at'. absurd (fresh_none n i q v at);
  }

  -- What copying the entries `old` into `es` gives.
  pub record Copied (k : ℕ) (old es : List Entry) (count : ℕ) (es' : List Entry) (count' : ℕ)
      : Type 0 where
    pub placed : WellPlaced strings (pow2 k) es'
    pub clean : Clean es'
    pub counted : count' ≡ count + keys old
    pub in_use : used es' ≡ used es + keys old
    pub has : (q : ℕ) (v : Value) → (Has es q v ⊎ Has old q v) → Has es' q v
    pub only : (q : ℕ) (v : Value) → Has es' q v → Has es q v ⊎ Has old q v

  -- The table and the entries still to be copied, before a round of the loop.
  pub record Copying (k : ℕ) (old es : List Entry) : Type 0 where
    placed : WellPlaced strings (pow2 k) es
    clean : Clean es
    once : Once old
    apart : (q : ℕ) (v w : Value) → Has es q v → Has old q w → ⊥
    room : used es + keys old < pow2 k

  abbrev pub Copies : ℕ → List Entry → List Entry → ℕ → Type 0
  Copies k old es count =
      (es' : List Entry) × (count' : ℕ) × (copy_entries strings old (pow2 k) es count
        ≡ ok (es', count'))
      × Copied k old es count es' count'

  Once-tail : (e : Entry) (old : List Entry) → Once (e ∷ old) → Once old
  Once-tail e old once i j q v w a b = let s = once (suc i) (suc j) q v w a b in omega arith

  Has-tail : (e : Entry) (old : List Entry) (q : ℕ) (v : Value) → Has old q v → Has (e ∷ old) q v
  Has-tail e old q v (i, at) = (suc i, at)

  -- A slot without a key is passed over.
  skip_round :
      (k : ℕ) (v : Value) (old es : List Entry) (count : ℕ)
      → Copying k (entry none v ∷ old) es
      → Copies k old es count
      → Copies k (entry none v ∷ old) es count
  unfolding copy_entries
  skip_round k v old es count c (es', count', e, d) = (
    es',
    count',
    e,
    record {
      placed = d.placed;
      clean = d.clean;
      counted = omega (arith, d.counted);
      in_use = omega (arith, d.in_use);
      has = λ q w h. d.has q w (elim h [ inl a ↦ inl a | inr b ↦ inr (below q w b) ]);
      only = λ q w h. elim (d.only q w h) [ inl a ↦ inl a | inr b ↦ inr (Has-tail _ old q w b) ];
    },
  )
    where
      below : (q : ℕ) (w : Value) → Has (entry none v ∷ old) q w → Has old q w
      below q w (zero, at) = cc
      below q w (suc i, at) = (i, at)

  -- The head of the list, or its tail.
  head_or_tail :
      (key : ℕ) (v : Value) (old : List Entry) (q : ℕ) (w : Value)
      → Has (entry (some key) v ∷ old) q w
      → ((q ≡ key) × (w ≡ v)) ⊎ Has old q w
  head_or_tail key v old q w (zero, at) = inl (ground arith, ground arith)
  head_or_tail key v old q w (suc i, at) = inr (i, at)

  -- The slot that a new key gets was never used.
  new_slot :
      (k key : ℕ) (v : Value) (old es : List Entry) (r : ℕ)
      → Copying k (entry (some key) v ∷ old) es
      → Finds strings (pow2 k) es key r
      → get_elem? es r ≡ some (entry none null)
  new_slot k key v old es r c (hit w at) = absurd (c.apart key w v (r, at) (0, refl))
  new_slot k key v old es r c (miss w lt at none_here passed) = rw (c.clean r w at) at at

  -- The loop after the copy of one key.
  Copying-step :
      (k key : ℕ) (v : Value) (old es : List Entry) (r : ℕ)
      → Copying k (entry (some key) v ∷ old) es
      → Finds strings (pow2 k) es key r
      → Copying k old (set es r (entry (some key) v))
        × (used (set es r (entry (some key) v)) ≡ used es + 1)
        × Written strings (pow2 k) es (set es r (entry (some key) v)) key v
  unfolding is_empty_entry
  Copying-step k key v old es r c f =
      let w = write_entry-Written strings (pow2 k) es key r v c.placed f in
      let at = new_slot k key v old es r c f in
      let more : used (set es r (entry (some key) v)) + 0 ≡ used es + 1 = used-set es r _ _ at in
      (
        record {
          placed = w.placed;
          clean = Clean-set es r key v (get_elem?-lt es r _ at) c.clean;
          once = Once-tail _ old c.once;
          apart = λ q a b ha hb. elim (Bool-cases (q == key)) [
            | inl same ↦
                let eq : q ≡ key = ground arith in
                let (i, ati) = hb in
                let clash = c.once 0 (suc i) key v b refl (rw eq at ati) in absurd (omega arith)
            | inr other ↦ c.apart q a b (w.adds_nothing q a other ha) (Has-tail _ old q b hb)
          ];
          room = omega (arith, c.room);
        },
        omega arith,
        w,
      )

  copy_round :
      (k key : ℕ) (v : Value) (old es : List Entry) (count r : ℕ)
      → Copying k (entry (some key) v ∷ old) es
      → find_entry strings es (pow2 k) key ≡ ok r
      → Finds strings (pow2 k) es key r
      → Copies k old (set es r (entry (some key) v)) (count + 1)
      → Copies k (entry (some key) v ∷ old) es count
  unfolding copy_entries
  copy_round k key v old es count r c found f (es', count', e, d) =
      let (_, more, w) = Copying-step k key v old es r c f in
      (
        es',
        count',
        rw found e,
        record {
          placed = d.placed;
          clean = d.clean;
          counted = omega (arith, d.counted);
          in_use = omega (arith, d.in_use);
          has = λ q x h. d.has q x (elim h [
            | inl a ↦ elim (Bool-cases (q == key)) [
              | inl same ↦
                  let eq : q ≡ key = ground arith in absurd (c.apart key x v (rw eq at a) (0, refl))
              | inr other ↦ inl (w.keeps q x other a)
            ]
            | inr b ↦ elim (head_or_tail key v old q x b) [
              | inl (qk, xv) ↦ inl (rw (qk, xv) w.stored)
              | inr t ↦ inr t
            ]
          ]);
          only = λ q x h. elim (d.only q x h) [
            | inl a ↦ elim (Bool-cases (q == key)) [
              | inl same ↦
                  let eq : q ≡ key = ground arith in inr (0, rw (eq, w.only x (rw eq at a)))
              | inr other ↦ inl (w.adds_nothing q x other a)
            ]
            | inr b ↦ inr (Has-tail _ old q x b)
          ];
        },
      )

  -- The entries of a table, copied into a new one.
  pub Copying-start :
      (k : ℕ) (old : List Entry)
      → Once old
      → keys old < pow2 k
      → Copying k old (replicate (pow2 k) (entry none null))
  Copying-start k old once room = record {
    placed = fresh-WellPlaced (pow2 k);
    clean = λ i w at. let same = fresh_at (pow2 k) i _ at in ground arith;
    once = once;
    apart = λ q v w (i, at) h. let same = fresh_at (pow2 k) i _ at in cc;
    room = omega (arith, used-fresh (pow2 k));
  }

  pub copy_entries-Copied :
      (k : ℕ) (old es : List Entry) (count : ℕ) → Copying k old es → Copies k old es count
  unfolding copy_entries
  copy_entries-Copied k [] es count c = (
    es,
    count,
    refl,
    record {
      placed = c.placed;
      clean = c.clean;
      counted = omega arith;
      in_use = omega arith;
      has = λ q v h. elim h [ inl a ↦ a | inr (i, at) ↦ cc ];
      only = λ q v h. inl h;
    },
  )
  copy_entries-Copied k (e ∷ old) es count c =
      go e.key e.value c (λ es count. copy_entries-Copied k old es count)
    where
      go :
          (ke : Option ℕ) (v : Value)
          → Copying k (entry ke v ∷ old) es
          → ((es : List Entry) (count : ℕ) → Copying k old es → Copies k old es count)
          → Copies k (entry ke v ∷ old) es count
      go none v c ih = skip_round k v old es count c (
          ih es count (record {
            placed = c.placed;
            clean = c.clean;
            once = Once-tail _ old c.once;
            apart = λ q a b ha hb. c.apart q a b ha (Has-tail _ old q b hb);
            room = omega (arith, c.room);
          }))
      go (some key) v c ih =
          let (z, hz, ez) = free_slot es (rw c.placed.size (omega (arith, c.room))) in
          let (r, found, f) =
            find_entry-Finds strings es k key c.placed z (rw c.placed.size at hz) ez in
          copy_round k key v old es count r c found f
            (ih _ (count + 1) (Copying-step k key v old es r c f).0)
