-- ===== src/HashMap/Tests.antt =====
-- src/hashmap.c on small tables: two keys whose strings have the same hash.
use joker_complier.Base.{ℕ, Bool, not, [], ◌∷◌, ok, ◌≡◌, refl, inl, ◌==◌, if◌then◌else◌}
use joker_complier.Value.{null}
use joker_complier.HashMap.{
  JString, HashMap, init_hashmap, hashmap_set, hashmap_get, hashmap_contains_key, hashmap_remove,
  make_room,
}
use joker_complier.HashMap.Table.{IsValid, Roomy, make_room-Roomy}
use joker_complier.HashMap.Lookup.{hashmap_set-get, hashmap_remove-get}

-- Every string of this heap has the hash 7.
abbrev colliding : ℕ → JString
colliding address = record { chars = address ∷ []; hash = 7 }

hashmap_set-get_example :
    (b : Bool) × (m' : HashMap) × (hashmap_set colliding init_hashmap 5 null ≡ ok (b, m'))
    × IsValid colliding m'
    × (hashmap_contains_key colliding init_hashmap 5 ≡ ok (not b))
    × ((q : ℕ)
        → hashmap_get colliding m' q
          ≡ (if q == 5 then ok null else hashmap_get colliding init_hashmap q))
hashmap_set-get_example = hashmap_set-get colliding init_hashmap 5 null (inl refl)

hashmap_remove-get_example :
    (b : Bool) × (m' : HashMap) × (hashmap_remove colliding init_hashmap 5 ≡ ok (b, m'))
    × IsValid colliding m'
    × (hashmap_contains_key colliding init_hashmap 5 ≡ ok b)
    × ((q : ℕ)
        → hashmap_get colliding m' q
          ≡ (if q == 5 then ok null else hashmap_get colliding init_hashmap q))
hashmap_remove-get_example = hashmap_remove-get colliding init_hashmap 5 (inl refl)

make_room-Roomy_example :
    (m' : HashMap) × (make_room colliding init_hashmap ≡ ok m') × Roomy colliding init_hashmap m'
make_room-Roomy_example = make_room-Roomy colliding init_hashmap (inl refl)
