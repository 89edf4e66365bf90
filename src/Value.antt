-- ===== src/Value.antt =====
-- include/value.h and src/value.c: the tagged values of the machine (built without NAN_BOXING).
-- A float is its bit pattern and an object is its address.
use joker_complier.Base.{ℕ, Bool, true, false}
use joker_complier.Base.Int.{ℤ, eqb_ℤ}

pub data Value : Type 0 where
  i32 : ℤ → Value
  i64 : ℤ → Value
  f32 : ℕ → Value
  f64 : ℕ → Value
  boolean : Bool → Value
  object : ℕ → Value
  none_value : Value
  null : Value

-- macro_is_null: the value of an empty slot of a hash map
abbrev pub is_null : Value → Bool
is_null null = true
is_null _ = false

abbrev pub eqb_bool : Bool → Bool → Bool
eqb_bool true b = b
eqb_bool false true = false
eqb_bool false false = true

-- `float_equal` is `==` of the floats, on single and on double precision; `object_equal` is the
-- comparison of src/object.c.
module _ (f32_equal f64_equal object_equal : ℕ → ℕ → Bool) where
  unfoldable pub values_equal : Value → Value → Bool
  values_equal (i32 a) (i32 b) = eqb_ℤ a b
  values_equal (i64 a) (i64 b) = eqb_ℤ a b
  values_equal (f32 a) (f32 b) = f32_equal a b
  values_equal (f64 a) (f64 b) = f64_equal a b
  values_equal (boolean a) (boolean b) = eqb_bool a b
  values_equal (object a) (object b) = object_equal a b
  values_equal none_value none_value = true
  values_equal null null = true
  values_equal _ _ = false
