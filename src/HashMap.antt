-- ===== src/HashMap.antt =====
-- include/hashmap.h and src/hashmap.c: an open-addressing table from interned strings to values.
-- A key is the address of its string, and keys are compared by address; `strings` is what the
-- heap holds at each address. The entries have all been written when the table is in use, so the
-- array is a plain list of `capacity` entries.
pub mod Mask
pub mod Probe
pub mod Write
pub mod Resize
pub mod Table
pub mod Lookup
mod Tests
use Prim.Native.Nat.{bit_and}
use joker_complier.Base.{
  ℕ, zero, suc, ◌+◌, ◌-◌, ◌*◌, Bool, true, false, not, ◌&&◌, Option, none, some, List, [], ◌∷◌,
  ◌++◌, Outcome, ok, panic, undefined, out_of_fuel, ◌>>=◌, ltb, ◌==◌, if◌then◌else◌, length,
  get_elem?, set, replicate,
}
use joker_complier.Memory.{grow_capacity}
use joker_complier.Value.{Value, null, boolean, is_null, object}

-- What src/string.c keeps of a string.
pub record JString : Type 0 where
  pub chars : List ℕ
  pub hash : ℕ

pub record Entry : Type 0 where
  pub key : Option ℕ
  pub value : Value

abbrev pub entry : Option ℕ → Value → Entry
entry k v = record { key = k; value = v }

pub record HashMap : Type 0 where
  pub count : ℕ
  pub capacity : ℕ
  pub entries : List Entry

abbrev is_none_key : Option ℕ → Bool
is_none_key none = true
is_none_key (some _) = false

unfoldable pub is_empty_entry : Entry → Bool
is_empty_entry e = is_none_key e.key && is_null e.value

unfoldable pub init_hashmap : HashMap
init_hashmap = record { count = 0; capacity = 0; entries = [] }

-- `&entries[index]`
unfoldable pub entry_at : List Entry → ℕ → Outcome Entry
entry_at entries index = elim (get_elem? entries index) [ none ↦ undefined | some e ↦ ok e ]

abbrev pub or_index : Option ℕ → ℕ → ℕ
or_index none index = index
or_index (some t) index = t

abbrev pub same_list : List ℕ → List ℕ → Bool
same_list [] [] = true
same_list (a ∷ as') (b ∷ bs) = (a == b) && same_list as' bs
same_list _ _ = false

module _ (strings : ℕ → JString) where
  -- The loop of `find_entry`, on fuel; the result is the index of the entry.
  unfoldable pub find_loop : ℕ → List Entry → ℕ → ℕ → ℕ → Option ℕ → Outcome ℕ
  find_loop zero entries capacity key index tombstone = out_of_fuel
  find_loop (suc fuel) entries capacity key index tombstone =
      let next = λ (t : Option ℕ).
        find_loop fuel entries capacity key (bit_and (index + 1) (capacity - 1)) t in
      entry_at entries index >>= λ e. elim e.key [
        | none ↦
            if is_null e.value
            then ok (or_index tombstone index)
            else next (some (or_index tombstone index))
        | some k ↦ if k == key then ok index else next tombstone
      ]

  -- As many rounds as there are entries.
  unfoldable pub find_entry : List Entry → ℕ → ℕ → Outcome ℕ
  find_entry entries capacity key =
      find_loop capacity entries capacity key (bit_and (strings key).hash (capacity - 1)) none

  -- The copying loop of `adjust_capacity`: the new entries and the new count.
  unfoldable pub copy_entries : List Entry → ℕ → List Entry → ℕ → Outcome (List Entry × ℕ)
  copy_entries [] new_capacity new_entries count = ok (new_entries, count)
  copy_entries (e ∷ old) new_capacity new_entries count = elim e.key [
    | none ↦ copy_entries old new_capacity new_entries count
    | some k ↦ find_entry new_entries new_capacity k >>= λ i.
        copy_entries old new_capacity (set new_entries i (entry (some k) e.value)) (count + 1)
  ]

  unfoldable pub adjust_capacity : HashMap → ℕ → Outcome HashMap
  adjust_capacity self new_capacity = do
    (entries, count) ←
        copy_entries self.entries new_capacity (replicate new_capacity (entry none null)) 0
    ok (record { count = count; capacity = new_capacity; entries = entries })

  -- The load test that opens `hashmap_set` and `hashmap_get_entry`; the factor is 0.75.
  unfoldable pub make_room : HashMap → Outcome HashMap
  make_room self =
      if ltb (self.capacity * 3) ((self.count + 1) * 4)
      then adjust_capacity self (grow_capacity self.capacity)
      else ok self

  unfoldable pub hashmap_set : HashMap → ℕ → Value → Outcome (Bool × HashMap)
  hashmap_set self key value = do
    roomy ← make_room self
    i ← find_entry roomy.entries roomy.capacity key
    e ← entry_at roomy.entries i
    ok (
      is_none_key e.key,
      record roomy {
        count = if is_empty_entry e then roomy.count + 1 else roomy.count;
        entries = set roomy.entries i (entry (some key) value);
      },
    )

  unfoldable pub hashmap_get : HashMap → ℕ → Outcome Value
  hashmap_get self key =
      let probe = find_entry self.entries self.capacity key >>= (λ i.
        entry_at self.entries i >>= (λ e. ok (if is_none_key e.key then null else e.value))) in
      if self.count == 0 then ok null else probe

  unfoldable pub hashmap_contains_key : HashMap → ℕ → Outcome Bool
  hashmap_contains_key self key =
      let probe =
        find_entry self.entries self.capacity key
        >>= (λ i. entry_at self.entries i >>= (λ e. ok (not (is_none_key e.key)))) in
      if self.count == 0 then ok false else probe

  unfoldable pub hashmap_remove : HashMap → ℕ → Outcome (Bool × HashMap)
  hashmap_remove self key =
      let probe = find_entry self.entries self.capacity key >>= (λ i.
        entry_at self.entries i >>= (λ e. ok (
          if is_none_key e.key then (false, self) else (
            true,
            record self { entries = set self.entries i (entry none (boolean true)) },
          )))) in
      if self.count == 0 then ok (false, self) else probe

  -- The loop of `hashmap_add_all`, over the entries of `from`.
  unfoldable pub add_entries : List Entry → HashMap → Outcome HashMap
  add_entries [] to = ok to
  add_entries (e ∷ from) to = elim e.key [
    | none ↦ add_entries from to
    | some k ↦ hashmap_set to k e.value >>= (λ r. add_entries from r.1)
  ]

  unfoldable pub hashmap_add_all : HashMap → HashMap → Outcome HashMap
  hashmap_add_all from to = add_entries from.entries to

  -- The loop of `hashmap_find_key`: a search by contents.
  unfoldable pub find_key_loop : ℕ → List Entry → ℕ → List ℕ → ℕ → ℕ → Outcome (Option ℕ)
  find_key_loop zero entries capacity chars hash index = out_of_fuel
  find_key_loop (suc fuel) entries capacity chars hash index =
      let next =
        find_key_loop fuel entries capacity chars hash (bit_and (index + 1) (capacity - 1)) in
      entry_at entries index >>= λ e. elim e.key [
        | none ↦ if is_null e.value then ok none else next
        | some k ↦
            if ((strings k).hash == hash) && same_list (strings k).chars chars
            then ok (some k)
            else next
      ]

  unfoldable pub hashmap_find_key : HashMap → List ℕ → ℕ → Outcome (Option ℕ)
  hashmap_find_key self chars hash =
      let probe =
        find_key_loop self.capacity self.entries self.capacity chars hash
          (bit_and hash (self.capacity - 1)) in
      if self.count == 0 then ok none else probe

  -- The loop of `hashmap_keys` over the entries left; it stops early at `count` keys.
  unfoldable pub keys_loop : List Entry → ℕ → List Value → List Value
  keys_loop [] count keys = keys
  keys_loop (e ∷ es) count keys =
      let keys' : List Value = elim e.key [ none ↦ keys | some k ↦ keys ++ object k ∷ [] ] in
      let rest = keys_loop es count keys' in if length keys' == count then keys' else rest

  unfoldable pub hashmap_keys : HashMap → List Value
  hashmap_keys self = keys_loop self.entries self.count []

  unfoldable pub values_loop : List Entry → ℕ → List Value → List Value
  values_loop [] count values = values
  values_loop (e ∷ es) count values =
      let values' : List Value = elim e.key [ none ↦ values | some k ↦ values ++ e.value ∷ [] ] in
      let rest = values_loop es count values' in if length values' == count then values' else rest

  unfoldable pub hashmap_values : HashMap → List Value
  hashmap_values self = values_loop self.entries self.count []

  -- The loop of `hashmap_equal`.
  unfoldable pub all_contained : List Entry → HashMap → Outcome Bool
  all_contained [] right = ok true
  all_contained (e ∷ left) right =
      let rest = all_contained left right in
      elim e.key [
        | none ↦ rest
        | some k ↦ hashmap_contains_key right k >>= (λ found. if found then rest else ok false)
      ]

  unfoldable pub hashmap_equal : HashMap → HashMap → Outcome Bool
  hashmap_equal left right =
      let compare_keys = all_contained left.entries right in
      if left.count == right.count then compare_keys else ok false

  -- The entry for `key` in a table with room for it; the caller writes through the result.
  unfoldable pub hashmap_get_entry : HashMap → ℕ → Outcome (ℕ × HashMap)
  hashmap_get_entry self key = do
    roomy ← make_room self
    i ← find_entry roomy.entries roomy.capacity key
    ok (i, roomy)
