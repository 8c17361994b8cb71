-- ===== src/Base/Results.antt =====
-- What a Rust function comes to: a value, an error value, or a panic (`expect`, a slice out of
-- range). The library code of the source never catches a panic.
use mathlib.Core.Path.{◌≡◌, refl}
use mathlib.Core.Logic.{◌⊎◌, inl, inr}
use mathlib.Core.Option.{Option, none, some}

pub data Outcome {ℓ κ} (E : Type ℓ) (A : Type κ) : Type (ℓ ⊔ κ) where
  ok : A → Outcome E A
  err : E → Outcome E A
  panic : Outcome E A

infixl 5 ◌>>=◌ ◌>>◌
abbrev pub ◌>>=◌ {κ μ ℓ} :
    {E : Type ℓ} {From : Type κ} {To : Type μ}
    → Outcome E From
    → (From → Outcome E To)
    → Outcome E To
panic >>= next = panic
err why >>= next = err why
ok value >>= next = next value

abbrev pub ◌>>◌ {κ μ ℓ} :
    {E : Type ℓ} {From : Type κ} {To : Type μ} → Outcome E From → Outcome E To → Outcome E To
first >> second = first >>= λ _. second

-- `map_err`
abbrev pub map_err {ℓ κ μ} :
    {E : Type ℓ} {F : Type κ} {A : Type μ} → (E → F) → Outcome E A → Outcome F A
map_err f (ok a) = ok a
map_err f (err e) = err (f e)
map_err f panic = panic

-- `expect` and `unwrap`
abbrev pub expect {ℓ κ μ} : {E : Type ℓ} {F : Type κ} {A : Type μ} → Outcome E A → Outcome F A
expect (ok a) = ok a
expect (err e) = panic
expect panic = panic

-- `ok_or`
abbrev pub ok_or {ℓ κ} : {E : Type ℓ} {A : Type κ} → Option A → E → Outcome E A
ok_or none e = err e
ok_or (some a) e = ok a

-- `unwrap` and `expect` of an option
abbrev pub unwrap {ℓ κ} : {E : Type ℓ} {A : Type κ} → Option A → Outcome E A
unwrap none = panic
unwrap (some a) = ok a

pub Outcome-cases {ℓ κ} :
    {E : Type ℓ} {A : Type κ} (o : Outcome E A)
    → ((a : A) × (o ≡ ok a)) ⊎ ((e : E) × (o ≡ err e)) ⊎ (o ≡ panic)
Outcome-cases (ok a) = inl (a, refl)
Outcome-cases (err e) = inr (inl (e, refl))
Outcome-cases panic = inr (inr refl)

pub >>=-eq-ok {κ μ ℓ} :
    {E : Type ℓ} {From : Type κ} {To : Type μ} (m : Outcome E From) (next : From → Outcome E To)
    {value : To}
    → (m >>= next) ≡ ok value
    → (x : From) × (m ≡ ok x) × (next x ≡ ok value)
>>=-eq-ok panic next h = cc
>>=-eq-ok (err why) next h = cc
>>=-eq-ok (ok x) next h = (x, refl, h)

pub ok-injective {ℓ κ} :
    {E : Type ℓ} {A : Type κ} {a b : A} → ◌≡◌ {A = Outcome E A} (ok a) (ok b) → a ≡ b
ok-injective h = cc

pub map_err-ok {ℓ κ μ} :
    {E : Type ℓ} {E' : Type κ} {A : Type μ} (f : E → E') (m : Outcome E A) {a : A}
    → map_err f m ≡ ok a
    → m ≡ ok a
map_err-ok f (ok a) h = cc
map_err-ok f (err e) h = cc
map_err-ok f panic h = cc
