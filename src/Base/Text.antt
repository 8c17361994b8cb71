-- ===== src/Base/Text.antt =====
-- Strings as lists of code points, with the operations of `str` that the source calls.
use Prim.Native.Nat.{ℕ, zero, suc, ◌+◌, ◌/◌, ◌%◌}
use Prim.Native.Char.{code}
use Prim.Native.String.{String}
use mathlib.Core.Path.{◌≡◌, refl}
use mathlib.Core.Logic.{◌↔◌}
use mathlib.Core.Bool.{Bool, true, false, ◌&&◌, ◌||◌}
use mathlib.Core.Option.{Option, none, some}
use mathlib.Core.List.{List, [], ◌∷◌, ◌++◌, reverse, reverse-append}
use native.Mathlib.Omega.{arith}
use flo.Base.Tests.{nat_eq, ltb, leb, if◌then◌else◌, Eq}
use flo.Base.Lists.{any, All}

abbrev pub Str : Type 0
Str = List ℕ

-- The code points of a literal.
abbrev pub codes : String → Str
codes String.[] = []
codes (String.◌∷◌ c s) = code c ∷ codes s

unfoldable pub str_eq : Str → Str → Bool
str_eq [] [] = true
str_eq [] (d ∷ t) = false
str_eq (c ∷ s) [] = false
str_eq (c ∷ s) (d ∷ t) = nat_eq c d && str_eq s t

pub str_eq_iff : (s t : Str) → (str_eq s t ≡ true) ↔ (s ≡ t)
unfolding str_eq
str_eq_iff [] [] = ground arith
str_eq_iff [] (d ∷ t) = ground arith
str_eq_iff (c ∷ s) [] = ground arith
str_eq_iff (c ∷ s) (d ∷ t) = ground (arith, str_eq_iff s t)

instance abbrev pub Str_eq : Eq Str
Str_eq = record { same = str_eq; same_iff = str_eq_iff }

pub str_eq_refl : (s : Str) → str_eq s s ≡ true
str_eq_refl s = (str_eq_iff s s).1 refl

-- `strip_prefix`
unfoldable pub strip_prefix : Str → Str → Option Str
strip_prefix [] s = some s
strip_prefix (c ∷ p) [] = none
strip_prefix (c ∷ p) (d ∷ s) = let rest = strip_prefix p s in if nat_eq c d then rest else none

unfoldable pub starts_with : Str → Str → Bool
starts_with [] s = true
starts_with (c ∷ p) [] = false
starts_with (c ∷ p) (d ∷ s) = nat_eq c d && starts_with p s

unfoldable pub ends_with : Str → Str → Bool
unfolding starts_with
ends_with p s = starts_with (reverse p) (reverse s)

abbrev pub contains_char : ℕ → Str → Bool
contains_char c = any (nat_eq c)

unfoldable pub contains_str : Str → Str → Bool
unfolding starts_with
contains_str p [] = starts_with p []
contains_str p (c ∷ s) = starts_with p (c ∷ s) || contains_str p s

-- Unicode's White_Space, which `trim` takes off.
abbrev pub is_whitespace : ℕ → Bool
is_whitespace c =
    leb 9 c && leb c 13
    || any (nat_eq c) (32 ∷ 133 ∷ 160 ∷ 5760 ∷ 8232 ∷ 8233 ∷ 8239 ∷ 8287 ∷ 12288 ∷ [])
    || leb 8192 c && leb c 8202

-- `split(c)`: at least one part, the head of the result.
abbrev pub cons_head : ℕ → List Str → List Str
cons_head c [] = (c ∷ []) ∷ []
cons_head c (p ∷ ps) = (c ∷ p) ∷ ps

unfoldable pub split : ℕ → Str → List Str
split c [] = [] ∷ []
split c (d ∷ s) = if nat_eq d c then [] ∷ split c s else cons_head d (split c s)

-- The contents have no separator.
abbrev pub Lacks : ℕ → Str → Type 0
Lacks c s = contains_char c s ≡ false

pub split-sep : (c : ℕ) (p s : Str) → Lacks c p → split c (p ++ c ∷ s) ≡ p ∷ split c s
unfolding split
split-sep c [] s h = ground arith
split-sep c (d ∷ p) s h = ground (arith, split-sep c p s)

pub split-Lacks : (c : ℕ) (p : Str) → Lacks c p → split c p ≡ p ∷ []
unfolding split
split-Lacks c [] h = refl
split-Lacks c (d ∷ p) h = ground (arith, split-Lacks c p)

-- `format!("{n}")` of a number.
show_digits : ℕ → ℕ → Str → Str
show_digits zero n acc = acc
show_digits (suc fuel) n acc =
    let more = show_digits fuel (n / 10) ((b'0' + n % 10) ∷ acc) in
    if ltb n 10 then (b'0' + n) ∷ acc else more

unfoldable pub show_ℕ : ℕ → Str
unfolding show_digits
show_ℕ n = show_digits (suc n) n []

-- The parts joined by a separator, as `format!("{a}/{b}")` writes them.
unfoldable pub join : ℕ → Str → List Str → Str
join c p [] = p
join c p (q ∷ ps) = p ++ c ∷ join c q ps

pub split-join :
    (c : ℕ) (p : Str) (ps : List Str) → All (Lacks c) (p ∷ ps) → split c (join c p ps) ≡ p ∷ ps
unfolding join
split-join c p [] h = split-Lacks c p h.0
split-join c p (q ∷ ps) h = rw (split-sep c p (join c q ps) h.0, split-join c q ps h.1)

pub starts_with-append : (p s : Str) → starts_with p (p ++ s) ≡ true
unfolding starts_with
starts_with-append [] s = refl
starts_with-append (c ∷ p) s = ground (arith, starts_with-append p s)

pub ends_with-append : (s p : Str) → ends_with p (s ++ p) ≡ true
unfolding ends_with
ends_with-append s p = rw (reverse-append s p) (starts_with-append (reverse p) (reverse s))
