-- ===== src/Engine/Order.antt =====
-- src/engine.rs: the order of the topics.
use Prim.Native.Nat.{Ordering, lt, eq}
use flo.Base.{◌≡◌, ◌⊎◌, inl, inr, refl, Bool, true, false, [], ◌∷◌, Str, arith}
use flo.Engine.Eval.{str_cmp}

abbrev pub is_lt : Ordering → Bool
is_lt lt = true
is_lt _ = false

-- `s` comes strictly before `t`.
abbrev pub before : Str → Str → Bool
before s t = is_lt (str_cmp s t)

pub str_cmp_refl : (s : Str) → str_cmp s s ≡ eq
unfolding str_cmp
str_cmp_refl [] = refl
str_cmp_refl (c ∷ s) = ground (arith, str_cmp_refl s)

pub before_cases : (s t : Str) → (before s t ≡ true) ⊎ ((s ≡ t) ⊎ (before t s ≡ true))
unfolding str_cmp
before_cases [] [] = inr (inl refl)
before_cases [] (d ∷ t) = inl refl
before_cases (c ∷ s) [] = inr (inr refl)
before_cases (c ∷ s) (d ∷ t) = ground (arith, before_cases s t)

pub before_trans : (s t u : Str) → before s t ≡ true → before t u ≡ true → before s u ≡ true
unfolding str_cmp
before_trans [] [] u h k = cc
before_trans [] (d ∷ t) [] h k = cc
before_trans [] (d ∷ t) (e ∷ u) h k = refl
before_trans (c ∷ s) [] u h k = cc
before_trans (c ∷ s) (d ∷ t) [] h k = cc
before_trans (c ∷ s) (d ∷ t) (e ∷ u) h k = ground (arith, before_trans s t u, h, k)

pub before_irrefl : (s t : Str) → before s t ≡ true → before t s ≡ false
unfolding str_cmp
before_irrefl [] [] h = cc
before_irrefl [] (d ∷ t) h = refl
before_irrefl (c ∷ s) [] h = cc
before_irrefl (c ∷ s) (d ∷ t) h = ground (arith, before_irrefl s t, h)
