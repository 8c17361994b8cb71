-- ===== src/Topic/Namespace.antt =====
-- src/topic.rs: the access-control expression of one robot.
use flo.Base.{
  ℕ, ◌+◌, ◌-◌, ◌≡◌, refl, ap, true, not, ◌&&◌, List, [], ◌∷◌, ◌++◌, Str, codes, starts_with,
  ends_with, length, length-append, ends_with-append, take, is_empty, arith, ok, panic,
  contains_char, leb, if◌then◌else◌,
}
use flo.Topic.Acl
use flo.Topic.Acl.{AclExpr, slice}
use flo.Topic.Builders.{robot_namespace}

take-length-append {ℓ} : {A : Type ℓ} (xs ys : List A) → take (length xs) (xs ++ ys) ≡ xs
take-length-append [] ys = refl
take-length-append (x ∷ xs) ys = rw (take-length-append xs ys)

abbrev scoped : Str → Str
scoped robot_id = codes "/robot/" ++ (robot_id ++ codes "/**")

length-scoped : (robot_id : Str) → length (scoped robot_id) - 3 ≡ length robot_id + 7
length-scoped robot_id = omega (arith, length-append {0} robot_id (codes "/**"))

slice-scoped :
    (robot_id : Str) → slice (scoped robot_id) 7 (length (scoped robot_id) - 3) ≡ ok robot_id
unfolding slice
slice-scoped robot_id = rw (length-scoped robot_id) (
    ground (
      arith,
      within (length robot_id),
      ap (λ n. take n (robot_id ++ codes "/**")) (shift (length robot_id)),
      take-length-append robot_id (codes "/**"),
    ))
  where
    within : (n : ℕ) → leb 7 (n + 7) ≡ true
    within n = ground arith

    shift : (n : ℕ) → n + 7 - 7 ≡ n
    shift n = omega arith

-- A robot id with no slash and no star has its namespace `/robot/{id}/**`, and no other id has one.
pub robot_namespace_lem {ℓ} :
    {E : Type ℓ} (robot_id : Str)
    → robot_namespace {E = E} robot_id ≡ (
        if not (is_empty robot_id)
          && (not (contains_char b'/' robot_id) && not (contains_char b'*' robot_id))
        then ok (record { text = scoped robot_id })
        else panic)
unfolding robot_namespace Acl.try_new starts_with
robot_namespace_lem robot_id =
    ground
      (arith, slice-scoped robot_id, ends_with-append (codes "/robot/" ++ robot_id) (codes "/**"))

-- The shortest text that starts with `/robot/` and ends with `/**` makes the validator panic: the
-- two slashes are one, and the slice between them runs backwards.
acl_panics : Acl.try_new (codes "/robot/**") ≡ panic
unfolding Acl.try_new starts_with ends_with
acl_panics = refl
