-- ===== src/Rules/Floats.antt =====
-- The numbers of the program that are not its own: `f64`, and the numbers of serde_json. They are a
-- parameter, with the two laws of `Number::from_f64`.
use Prim.Native.Nat.{Ordering, lt, eq, gt}
use flo.Base.{ℕ, Bool, true, false, Option, none, some, ◌≡◌}

-- `negsuc n` is -(n + 1).
pub data ℤ : Type 0 where
  pos negsuc : ℕ → ℤ

pub record Floats : Type 1 where
  pub F64 : Type 0
  -- `partial_cmp`, from which `<`, `<=`, `>` and `>=` are read
  pub partial_cmp : F64 → F64 → Option Ordering
  pub sub : F64 → F64 → F64
  pub abs : F64 → F64
  pub is_finite : F64 → Bool
  -- the literals 0.0 and 1e-9
  pub zero : F64
  pub epsilon : F64
  -- serde_json's numbers
  pub Number : Type 0
  pub number_eq : Number → Number → Bool
  pub as_f64 : Number → Option F64
  pub from_int : ℤ → Number
  pub from_f64 : F64 → Option Number
  -- a number is made of each finite float, and reads back as it
  pub from_f64_finite :
      (x : F64) → is_finite x ≡ true → (n : Number) × (from_f64 x ≡ some n) × (as_f64 n ≡ some x)
  pub from_f64_other : (x : F64) → is_finite x ≡ false → from_f64 x ≡ none

abbrev pub is_lt : Option Ordering → Bool
is_lt (some lt) = true
is_lt _ = false

abbrev pub is_gt : Option Ordering → Bool
is_gt (some gt) = true
is_gt _ = false

abbrev pub is_le : Option Ordering → Bool
is_le (some lt) = true
is_le (some eq) = true
is_le _ = false

abbrev pub is_ge : Option Ordering → Bool
is_ge (some gt) = true
is_ge (some eq) = true
is_ge _ = false
