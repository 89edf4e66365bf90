-- ===== src/HashMap/Probe.antt =====
-- The probe sequence of src/hashmap.c and what `find_entry` finds along it.
use Prim.Native.Nat.{bit_and}
use joker_complier.Base.{
  ℕ, zero, suc, ◌+◌, ◌-◌, ◌≤◌, ◌<◌, ◌≡◌, refl, ◌∙◌, true, false, Option, none, some, List, arith,
  ok, ltb, leb, ◌==◌, if◌then◌else◌, length, get_elem?, get_elem?_total, get_elem?-lt, ltb→lt,
  Bool-cases, ◌⊎◌, inl, inr,
}
use joker_complier.Value.{Value, null, is_null}
use joker_complier.HashMap.{
  JString, Entry, entry, is_empty_entry, entry_at, or_index, find_loop, find_entry,
}
use joker_complier.HashMap.Mask.{pow2, mask-lt, mask_below, mask_wraps}

-- The slot at distance `d` after slot `s`, round a table of `n` slots.
unfoldable pub slot : ℕ → ℕ → ℕ → ℕ
slot n s d = if ltb (s + d) n then s + d else s + d - n

-- The distance from slot `s` on to slot `z`.
unfoldable pub distance : ℕ → ℕ → ℕ → ℕ
distance n s z = if leb s z then z - s else z + n - s

pub slot-lt : (n s d : ℕ) → s < n → d < n → slot n s d < n
unfolding slot
slot-lt n s d hs hd = ground arith

pub slot-distance : (n s z : ℕ) → s < n → z < n → slot n s (distance n s z) ≡ z
unfolding slot distance
slot-distance n s z hs hz = ground arith

pub distance-lt : (n s z : ℕ) → s < n → z < n → distance n s z < n
unfolding distance
distance-lt n s z hs hz = ground arith

pub distance-slot : (n s d : ℕ) → s < n → d < n → distance n s (slot n s d) ≡ d
unfolding slot distance
distance-slot n s d hs hd = ground arith

slot_zero : (n s : ℕ) → s < n → slot n s 0 ≡ s
unfolding slot
slot_zero n s h = ground arith

-- One step of the probe goes to the next slot.
pub slot_step :
    (k s d : ℕ)
    → s < pow2 k
    → suc d < pow2 k
    → bit_and (slot (pow2 k) s d + 1) (pow2 k - 1) ≡ slot (pow2 k) s (suc d)
unfolding slot
slot_step k s d hs hd =
    ground (arith, mask_below k (s + d + 1), mask_wraps k, mask_below k (s + d - pow2 k + 1))

-- Slot `i` holds `key` with value `v`.
abbrev pub At : List Entry → ℕ → ℕ → Value → Type 0
At es i key v = get_elem? es i ≡ some (entry (some key) v)

-- Slot `i` has been used: by a key, or by one that was removed.
abbrev pub Busy : List Entry → ℕ → Type 0
Busy es i = (e : Entry) × (get_elem? es i ≡ some e) × (is_empty_entry e ≡ false)

pub entry_at-ok :
    (es : List Entry) (i : ℕ) {e : Entry} → get_elem? es i ≡ some e → entry_at es i ≡ ok e
unfolding entry_at
entry_at-ok es i at = rw (at, entry_at)

pub not-Busy :
    (es : List Entry) (i : ℕ) (v : Value)
    → get_elem? es i ≡ some (entry none v)
    → is_null v ≡ true
    → Busy es i
    → ⊥
unfolding is_empty_entry
not-Busy es i v at e (x, atx, busy) =
    let same : x ≡ entry none v = cc in let free : is_null v ≡ false = rw same at busy in cc

-- What holds of the tombstone if there is one, and of the index, holds of the one chosen.
or_index_holds :
    (P : ℕ → Type 0) (t : Option ℕ) (i r : ℕ)
    → ((r' : ℕ) → t ≡ some r' → P r')
    → P i
    → some (or_index t i) ≡ some r
    → P r
or_index_holds P none i r h here e = let same : r ≡ i = cc in rw same here
or_index_holds P (some r') i r h here e = let same : r ≡ r' = cc in rw same (h r' refl)

below_suc : (e d : ℕ) → e < suc d → (e < d) ⊎ (e ≡ d)
below_suc e d h = ground arith

module _ (strings : ℕ → JString) where
  abbrev pub home : ℕ → ℕ → ℕ
  home n key = bit_and (strings key).hash (n - 1)

  -- The slot at distance `d` along the probe for `key`.
  abbrev pub probe : ℕ → ℕ → ℕ → ℕ
  probe n key d = slot n (home n key) d

  -- In a table of `n` slots, every slot that the probe for a stored key passes before it is in
  -- use, and no key is stored twice.
  pub record WellPlaced (n : ℕ) (es : List Entry) : Type 0 where
    pub size : length es ≡ n
    pub passes :
        (i key : ℕ) (v : Value) (d : ℕ)
        → At es i key v
        → d < distance n (home n key) i
        → Busy es (probe n key d)
    pub once : (i j key : ℕ) (v w : Value) → At es i key v → At es j key w → i ≡ j

  -- What `find_entry` finds for `key`: its slot, or a slot to put it in, with all slots of the
  -- probe before that one in use.
  pub data Finds (n : ℕ) (es : List Entry) (key r : ℕ) : Type 0 where
    hit : (v : Value) → At es r key v → Finds n es key r
    miss :
        (w : Value)
        → r < n
        → get_elem? es r ≡ some (entry none w)
        → ((i : ℕ) (v : Value) → At es i key v → ⊥)
        → ((d : ℕ) → d < distance n (home n key) r → Busy es (probe n key d))
        → Finds n es key r

  -- The four ways through one round of the loop.
  module _ (fuel : ℕ) (es : List Entry) (n key i : ℕ) (t : Option ℕ) (v : Value) where
    find_empty :
        get_elem? es i ≡ some (entry none v)
        → is_null v ≡ true
        → find_loop strings (suc fuel) es n key i t ≡ ok (or_index t i)
    unfolding find_loop
    find_empty at e = rw (entry_at-ok es i at, e)

    find_tombstone :
        get_elem? es i ≡ some (entry none v)
        → is_null v ≡ false
        → find_loop strings (suc fuel) es n key i t
          ≡ find_loop strings fuel es n key (bit_and (i + 1) (n - 1)) (some (or_index t i))
    unfolding find_loop
    find_tombstone at e = rw (entry_at-ok es i at, e)

    find_hit : At es i key v → find_loop strings (suc fuel) es n key i t ≡ ok i
    unfolding find_loop
    find_hit at = let same : (key == key) ≡ true = ground arith in rw (entry_at-ok es i at, same)

    find_other :
        (k : ℕ)
        → At es i k v
        → (k == key) ≡ false
        → find_loop strings (suc fuel) es n key i t
          ≡ find_loop strings fuel es n key (bit_and (i + 1) (n - 1)) t
    unfolding find_loop
    find_other k at e = rw (entry_at-ok es i at, e)

  -- The probe at distance `d`: no slot before it holds the key, all of them are in use, and the
  -- tombstone, if there is one, was passed.
  record Probing (n : ℕ) (es : List Entry) (key d : ℕ) (t : Option ℕ) : Type 0 where
    passed : (e : ℕ) → e < d → Busy es (probe n key e)
    other : (e : ℕ) (v : Value) → e < d → At es (probe n key e) key v → ⊥
    stone : (r : ℕ) → t ≡ some r → (e : ℕ) × (e < d) × (r ≡ probe n key e)
    stone_free : (r : ℕ) → t ≡ some r → (w : Value) × (get_elem? es r ≡ some (entry none w))

  module _ (es : List Entry) (k key : ℕ) (placed : WellPlaced (pow2 k) es) where
    -- An unused slot on the probe at distance `d`: the key is nowhere.
    absent :
        (d : ℕ) (t : Option ℕ) (v : Value)
        → Probing (pow2 k) es key d t
        → d < pow2 k
        → get_elem? es (probe (pow2 k) key d) ≡ some (entry none v)
        → is_null v ≡ true
        → (i : ℕ) (w : Value) → At es i key w
        → ⊥
    absent d t v p hd at e i w ati =
        let lt = mask-lt k (strings key).hash in
        let within : i < pow2 k = rw placed.size at (get_elem?-lt es i _ ati) in
        let back = slot-distance (pow2 k) (home (pow2 k) key) i lt within in
        let di = distance (pow2 k) (home (pow2 k) key) i in
        elim (Bool-cases (ltb di d)) [
          | inl before ↦ p.other di w (ltb→lt di d before) (rw back ati)
          | inr after ↦ elim (Bool-cases (di == d)) [
            | inl same ↦
                let eq : di ≡ d = ground arith in
                let found : At es (probe (pow2 k) key d) key w = rw (← eq) (rw back ati) in cc
            | inr later ↦
                not-Busy es (probe (pow2 k) key d) v at e
                  (placed.passes i key w d ati (ground arith))
          ]
        ]

    next_tombstone :
        (d : ℕ) (t : Option ℕ) (v : Value)
        → Probing (pow2 k) es key d t
        → get_elem? es (probe (pow2 k) key d) ≡ some (entry none v)
        → is_null v ≡ false
        → Probing (pow2 k) es key (suc d) (some (or_index t (probe (pow2 k) key d)))
    unfolding is_empty_entry
    next_tombstone d t v p at e = record {
      passed = λ c h. elim (below_suc c d h) [
        | inl before ↦ p.passed c before
        | inr here ↦ rw here (entry none v, at, e)
      ];
      other = λ c w h found. elim (below_suc c d h) [
        | inl before ↦ p.other c w before found
        | inr here ↦ let found' : At es (probe (pow2 k) key d) key w = rw here at found in cc
      ];
      stone = λ r same.
          or_index_holds (λ r. (c : ℕ) × (c < suc d) × (r ≡ probe (pow2 k) key c)) t _ r
            (λ r' e'. let (c, lt, eq) = p.stone r' e' in (c, omega arith, eq))
            (d, omega arith, refl) same;
      stone_free = λ r same.
          or_index_holds (λ r. (w : Value) × (get_elem? es r ≡ some (entry none w))) t _ r
            p.stone_free (v, at) same;
    }

    next_other :
        (d : ℕ) (t : Option ℕ) (k' : ℕ) (v : Value)
        → Probing (pow2 k) es key d t
        → At es (probe (pow2 k) key d) k' v
        → (k' == key) ≡ false
        → Probing (pow2 k) es key (suc d) t
    unfolding is_empty_entry
    next_other d t k' v p at ne = record {
      passed = λ c h. elim (below_suc c d h) [
        | inl before ↦ p.passed c before
        | inr here ↦ rw here (entry (some k') v, at, refl)
      ];
      other = λ c w h found. elim (below_suc c d h) [
        | inl before ↦ p.other c w before found
        | inr here ↦
            let found' : At es (probe (pow2 k) key d) key w = rw here at found in
            let same : some k' ≡ some key = cc in ground arith
      ];
      stone = λ r e. let (c, lt, eq) = p.stone r e in (c, omega arith, eq);
      stone_free = p.stone_free;
    }

    -- Where the loop stops at an unused slot: at the first tombstone passed, or there.
    stop_free :
        (d : ℕ) (t : Option ℕ) (v : Value)
        → Probing (pow2 k) es key d t
        → d < pow2 k
        → get_elem? es (probe (pow2 k) key d) ≡ some (entry none v)
        → is_null v ≡ true
        → Finds (pow2 k) es key (or_index t (probe (pow2 k) key d))
    stop_free d none v p hd at e =
        let start = mask-lt k (strings key).hash in
        miss v (slot-lt _ _ d start hd) at (absent d none v p hd at e)
          (λ c h. p.passed c (rw (distance-slot (pow2 k) (home (pow2 k) key) d start hd) at h))
    stop_free d (some r) v p hd at e =
        let start = mask-lt k (strings key).hash in
        let (c, lt, eq) = p.stone r refl in
        let (w, free) = p.stone_free r refl in
        let hc : c < pow2 k = omega arith in
        let there = distance-slot (pow2 k) (home (pow2 k) key) c start hc in
        miss w (rw eq (slot-lt _ _ c start hc)) free (absent d (some r) v p hd at e)
          (λ b h. p.passed b (omega (arith, rw (eq, there) at h)))

    module _ (z : ℕ) (hz : z < pow2 k) (ez : get_elem? es z ≡ some (entry none null)) where
      far : ℕ
      far = distance (pow2 k) (home (pow2 k) key) z

      -- At a slot in use the loop is not yet at `z`.
      before_far : (d : ℕ) → d ≤ far → Busy es (probe (pow2 k) key d) → suc d ≤ far
      unfolding far
      before_far d le used = elim (Bool-cases (d == distance (pow2 k) (home (pow2 k) key) z)) [
        | inl same ↦
            let eq : d ≡ distance (pow2 k) (home (pow2 k) key) z = ground arith in
            let back =
              slot-distance (pow2 k) (home (pow2 k) key) z (mask-lt k (strings key).hash) hz in
            absurd (not-Busy es z null ez refl (rw (eq, back) at used))
        | inr less ↦ ground arith
      ]

      far-lt : far < pow2 k
      unfolding far
      far-lt = distance-lt (pow2 k) (home (pow2 k) key) z (mask-lt k (strings key).hash) hz

      far_step :
          (d : ℕ)
          → suc d ≤ far
          → bit_and (probe (pow2 k) key d + 1) (pow2 k - 1) ≡ probe (pow2 k) key (suc d)
      far_step d le =
          slot_step k (home (pow2 k) key) d (mask-lt k (strings key).hash) (omega (arith, far-lt))

      Continues : ℕ → ℕ → Type 0
      Continues fuel d =
          (t : Option ℕ)
          → Probing (pow2 k) es key d t
          → d ≤ far
          → (r : ℕ) × (find_loop strings fuel es (pow2 k) key (probe (pow2 k) key d) t ≡ ok r)
            × Finds (pow2 k) es key r

      find_round :
          (fuel d : ℕ) (t : Option ℕ) (key_at : Option ℕ) (v : Value)
          → get_elem? es (probe (pow2 k) key d) ≡ some (entry key_at v)
          → Continues fuel (suc d)
          → Probing (pow2 k) es key d t
          → d ≤ far
          → (r : ℕ) × (find_loop strings (suc fuel) es (pow2 k) key (probe (pow2 k) key d) t ≡ ok r)
            × Finds (pow2 k) es key r
      unfolding Continues is_empty_entry
      find_round fuel d t none v at next p le = elim (Bool-cases (is_null v)) [
        | inl unused ↦ (
          or_index t (probe (pow2 k) key d),
          find_empty fuel es (pow2 k) key _ t v at unused,
          stop_free d t v p (omega (arith, far-lt)) at unused,
        )
        | inr tomb ↦
            let more = before_far d le (entry none v, at, tomb) in
            let (r, e, f) = next _ (next_tombstone d t v p at tomb) more in
            (r, find_tombstone fuel es (pow2 k) key _ t v at tomb ∙ rw (far_step d more) e, f)
      ]
      find_round fuel d t (some k') v at next p le = elim (Bool-cases (k' == key)) [
        | inl same ↦
            let eq : k' ≡ key = ground arith in
            let found : At es (probe (pow2 k) key d) key v = rw eq at at in
            (probe (pow2 k) key d, find_hit fuel es (pow2 k) key _ t v found, hit v found)
        | inr differs ↦
            let more = before_far d le (entry (some k') v, at, refl) in
            let (r, e, f) = next t (next_other d t k' v p at differs) more in
            (r, find_other fuel es (pow2 k) key _ t v k' at differs ∙ rw (far_step d more) e, f)
      ]

      find_loop-Finds : (fuel d : ℕ) → far < d + fuel → Continues fuel d
      unfolding Continues
      find_loop-Finds zero d lt t p le = absurd (omega arith)
      find_loop-Finds (suc fuel) d lt t p le =
          let start = mask-lt k (strings key).hash in
          let inside : probe (pow2 k) key d < length es =
            rw placed.size (slot-lt _ _ d start (omega (arith, far-lt))) in
          let (e, at) = get_elem?_total es (probe (pow2 k) key d) inside in
          find_round fuel d t e.key e.value at (find_loop-Finds fuel (suc d) (omega arith)) p le

    -- Where a slot has never been used, `find_entry` ends.
    pub find_entry-Finds :
        (z : ℕ)
        → z < pow2 k
        → get_elem? es z ≡ some (entry none null)
        → (r : ℕ) × (find_entry strings es (pow2 k) key ≡ ok r) × Finds (pow2 k) es key r
    unfolding find_entry Continues
    find_entry-Finds z hz ez =
        let start = mask-lt k (strings key).hash in
        let first : slot (pow2 k) (home (pow2 k) key) 0 ≡ home (pow2 k) key = slot_zero _ _ start in
        rw first at (
          find_loop-Finds z hz ez (pow2 k) 0 (omega (arith, far-lt z hz ez)) none
            (record {
              passed = λ e h. absurd (omega arith);
              other = λ e v h a. absurd (omega arith);
              stone = λ r e. cc;
              stone_free = λ r e. cc;
            })
            (omega arith))
