-- ===== src/Memory/Stores.antt =====
-- What a block holds: its first cells are the items of a list.
use joker_complier.Base.{
  ℕ, zero, suc, ◌≤◌, ◌<◌, ◌≡◌, refl, some, List, [], ◌∷◌, ◌++◌, arith, ok, length, get_elem?, set,
  lt→ltb, ltb, length-append, length-set, Bool-cases, ◌⊎◌, inl, inr, ◌+◌,
}
use joker_complier.Memory.{Block, reallocate, load, store, grow_capacity, reserve, push_back}

pub data Stores {ℓ} {A : Type ℓ} : Block A → List A → Type ℓ where
  nothing : {b : Block A} → Stores b []
  item : {b : Block A} {x : A} {xs : List A} → Stores b xs → Stores (some x ∷ b) (x ∷ xs)

module _ {ℓ} {A : Type ℓ} where
  pub Stores-le : {b : Block A} {xs : List A} → Stores b xs → length xs ≤ length b
  Stores-le nothing = omega arith
  Stores-le (item s) = omega (arith, Stores-le s)

  pub length-reallocate : (n : ℕ) (b : Block A) → length (reallocate n b) ≡ n
  unfolding reallocate
  length-reallocate zero b = refl
  length-reallocate (suc n) [] = omega (arith, length-reallocate n [])
  length-reallocate (suc n) (c ∷ b) = omega (arith, length-reallocate n b)

  pub Stores-reallocate :
      (n : ℕ) {b : Block A} {xs : List A} → Stores b xs → length xs ≤ n → Stores (reallocate n b) xs
  unfolding reallocate
  Stores-reallocate n nothing h = nothing
  Stores-reallocate zero (item s) h = absurd (omega arith)
  Stores-reallocate (suc n) (item s) h = item (Stores-reallocate n s (omega arith))

  pub Stores-push :
      {b : Block A} {xs : List A} (x : A)
      → Stores b xs
      → length xs < length b
      → Stores (set b (length xs) (some x)) (xs ++ x ∷ [])
  Stores-push {b} x (nothing {b = []}) h = absurd (omega arith)
  Stores-push x (nothing {b = c ∷ b}) h = item nothing
  Stores-push x (item s) h = item (Stores-push x s (omega arith))

  pub Stores-set :
      {b : Block A} {xs : List A} (i : ℕ) (x : A)
      → Stores b xs
      → Stores (set b i (some x)) (set xs i x)
  Stores-set i x nothing = nothing
  Stores-set zero x (item s) = item s
  Stores-set (suc i) x (item s) = item (Stores-set i x s)

  pub get_elem?-Stores :
      {b : Block A} {xs : List A} (i : ℕ) (x : A)
      → Stores b xs
      → get_elem? xs i ≡ some x
      → get_elem? b i ≡ some (some x)
  get_elem?-Stores i x nothing h = cc
  get_elem?-Stores zero x (item s) h = cc
  get_elem?-Stores (suc i) x (item s) h = get_elem?-Stores i x s h

  pub load-Stores :
      {b : Block A} {xs : List A} (i : ℕ) (x : A)
      → Stores b xs
      → get_elem? xs i ≡ some x
      → load b i ≡ ok x
  unfolding load
  load-Stores i x s h = rw (get_elem?-Stores i x s h, load)

  pub store-ok : (b : Block A) (i : ℕ) (x : A) → i < length b → store b i x ≡ ok (set b i (some x))
  unfolding store
  store-ok b i x h = rw (lt→ltb i (length b) h)

pub lt-grow_capacity : (n : ℕ) → n < grow_capacity n
unfolding grow_capacity
lt-grow_capacity n = ground arith

-- A growable array: its items, within its capacity, within its block.
pub record Array {ℓ} {A : Type ℓ} (capacity : ℕ) (b : Block A) (xs : List A) : Type ℓ where
  pub stored : Stores b xs
  pub within : length xs ≤ capacity
  pub allocated : capacity ≤ length b

-- A capacity that stays, or that was used up and grows.
abbrev pub Grows : ℕ → ℕ → ℕ → Type 0
Grows capacity count capacity' =
    (capacity' ≡ capacity) ⊎ ((count ≡ capacity) × (capacity' ≡ grow_capacity capacity))

module _ {ℓ} {A : Type ℓ} where
  pub Array-length :
      {capacity : ℕ} {b : Block A} {xs : List A} → Array capacity b xs → length xs ≤ length b
  Array-length a = omega (arith, a.within, a.allocated)

  pub Array-reallocate :
      {capacity : ℕ} {b : Block A} {xs : List A} (n : ℕ)
      → Array capacity b xs
      → capacity ≤ n
      → Array n (reallocate n b) xs
  Array-reallocate {b} {xs} n a h = record {
    stored = Stores-reallocate n a.stored (omega (arith, a.within));
    within = omega (arith, a.within);
    allocated = omega (arith, length-reallocate n b);
  }

  pub reserve-Array :
      {capacity : ℕ} {b : Block A} {xs : List A}
      → Array capacity b xs
      → Array (reserve capacity (length xs) b).0 (reserve capacity (length xs) b).1 xs
        × (length xs < (reserve capacity (length xs) b).0)
        × Grows capacity (length xs) (reserve capacity (length xs) b).0
  unfolding reserve
  reserve-Array {capacity} {b} {xs} a = elim (Bool-cases (ltb capacity (length xs + 1))) [
    | inl full ↦
        let big = lt-grow_capacity capacity in
        rw full (
          Array-reallocate (grow_capacity capacity) a (omega arith),
          omega (arith, a.within),
          inr (ground (arith, a.within), refl),
        )
    | inr room ↦ rw room (a, ground arith, inl refl)
  ]

  pub Array-set :
      {capacity : ℕ} {b : Block A} {xs : List A} (i : ℕ) (x : A)
      → Array capacity b xs
      → Array capacity (set b i (some x)) (set xs i x)
  Array-set {b} {xs} i x a = record {
    stored = Stores-set i x a.stored;
    within = omega (arith, a.within, length-set xs i x);
    allocated = omega (arith, a.allocated, length-set b i (some x));
  }

  pub Array-push :
      {capacity : ℕ} {b : Block A} {xs : List A} (x : A)
      → Array capacity b xs
      → length xs < capacity
      → Array capacity (set b (length xs) (some x)) (xs ++ x ∷ [])
  Array-push {b} {xs} x a h = record {
    stored = Stores-push x a.stored (omega (arith, a.allocated));
    within = omega (arith, length-append xs (x ∷ []));
    allocated = omega (arith, a.allocated, length-set b (length xs) (some x));
  }

  -- One more item, and nothing out of bounds.
  pub push_back-Array :
      {capacity : ℕ} {b : Block A} {xs : List A} (x : A)
      → Array capacity b xs
      → (c : ℕ) × (b' : Block A) × (push_back capacity (length xs) b x ≡ ok (c, b'))
        × Array c b' (xs ++ x ∷ [])
        × Grows capacity (length xs) c
  unfolding push_back
  push_back-Array {capacity} {b} {xs} x a =
      let (room, lt, grows) = reserve-Array a in
      let (c, b') = reserve capacity (length xs) b in
      (
        c,
        set b' (length xs) (some x),
        rw (store-ok b' (length xs) x (omega (arith, room.allocated))),
        Array-push x room lt,
        grows,
      )
