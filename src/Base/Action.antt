-- ===== src/Base/Action.antt =====
-- Actions on a state that may fail: a C function as a function from the state that it reads and changes
-- to an outcome.
use joker_complier.Base.Errors.{Outcome, ok, panic, undefined, out_of_fuel}

abbrev pub Action : Type 0 → Type 0 → Type 0
Action S A = S → Outcome (A × S)

abbrev pub continue : {S A B : Type 0} → Outcome (A × S) → (A → Action S B) → Outcome (B × S)
continue (ok (a, s)) f = f a s
continue panic f = panic
continue undefined f = undefined
continue out_of_fuel f = out_of_fuel

infixl 5 ◌>>=◌ ◌>>◌
abbrev pub ◌>>=◌ : {S A B : Type 0} → Action S A → (A → Action S B) → Action S B
◌>>=◌ m f s = continue (m s) f

abbrev pub ◌>>◌ : {S B : Type 0} → Action S (Unit {0}) → Action S B → Action S B
m >> n = m >>= λ _. n

abbrev pub return : {S A : Type 0} → A → Action S A
return a s = ok (a, s)

abbrev pub fail : {S A : Type 0} → Action S A
fail s = panic

-- The fuel of the model has run out.
abbrev pub exhausted : {S A : Type 0} → Action S A
exhausted s = out_of_fuel

-- Undefined behaviour.
abbrev pub crash : {S A : Type 0} → Action S A
crash s = undefined

abbrev pub skip : {S : Type 0} → Action S (Unit {0})
skip s = ok (tt, s)
