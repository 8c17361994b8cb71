-- ===== src/Engine/Canonical.antt =====
-- src/engine.rs: the sorted topics without repetitions, and the set of topics that they stand for.
use mathlib.Core.Path.{ap₂, subst}
use flo.Base.{
  ◌≡◌, ◌↔◌, inl, inr, refl, sym, ◌∙◌, ap, true, false, List, [], ◌∷◌, Str, Str_eq, str_eq,
  str_eq_iff, str_eq_refl, member, arith, All, All-map, Bool-cases,
}
use flo.Rules.Floats.{Floats}
use flo.Rules.Model.{Rules}
use flo.Engine.Eval.{str_cmp}
use flo.Engine.Order.{before, str_cmp_refl, before_cases, before_trans, before_irrefl}
use flo.Engine.Subscribe.{
  not_after, insert_topic, sort, dedup_after, dedup, topics_of, collect_all, member-topics_of,
}
use flo.Engine.Coverage.{is_mentioned, member-collect_all}

-- Each element is below all that follow, strictly or not.
abbrev IsAscending : List Str → Type 0
IsAscending [] = Unit
IsAscending (t ∷ ts) = All (λ u. before t u ≡ true) ts × IsAscending ts

abbrev IsSorted : List Str → Type 0
IsSorted [] = Unit
IsSorted (t ∷ ts) = All (λ u. before u t ≡ false) ts × IsSorted ts

not_after_lem : (t u : Str) → not_after (str_cmp t u) ≡ true → before u t ≡ false
unfolding str_cmp
not_after_lem [] [] h = refl
not_after_lem [] (d ∷ u) h = refl
not_after_lem (c ∷ t) [] h = cc
not_after_lem (c ∷ t) (d ∷ u) h = ground (arith, not_after_lem t u, h)

after_lem : (t u : Str) → not_after (str_cmp t u) ≡ false → before u t ≡ true
unfolding str_cmp
after_lem [] [] h = cc
after_lem [] (d ∷ u) h = cc
after_lem (c ∷ t) [] h = refl
after_lem (c ∷ t) (d ∷ u) h = ground (arith, after_lem t u, h)

-- Not above, one after the other.
not_before_trans : (t u v : Str) → before u t ≡ false → before v u ≡ false → before v t ≡ false
not_before_trans t u v h k = ground (
  arith,
  before_cases t u,
  before_cases u v,
  before_trans t u v,
  before_irrefl t v,
  before_irrefl t u,
)

insert_topic-All :
    (P : Str → Type 0) (t : Str) (ts : List Str) → P t → All P ts → All P (insert_topic t ts)
unfolding insert_topic
insert_topic-All P t [] p h = (p, tt)
insert_topic-All P t (u ∷ us) p h = elim (Bool-cases (not_after (str_cmp t u))) [
  | inl k ↦ rw k (p, h)
  | inr k ↦ rw k (h.0, insert_topic-All P t us p h.1)
]

insert_topic-IsSorted : (t : Str) (ts : List Str) → IsSorted ts → IsSorted (insert_topic t ts)
unfolding insert_topic
insert_topic-IsSorted t [] h = (tt, tt)
insert_topic-IsSorted t (u ∷ us) h = elim (Bool-cases (not_after (str_cmp t u))) [
  | inl k ↦
      let first = not_after_lem t u k in
      rw k ((first, All-map us (λ v g. not_before_trans t u v first g) h.0), h)
  | inr k ↦ rw k (
    insert_topic-All (λ v. before v u ≡ false) t us (before_irrefl u t (after_lem t u k)) h.0,
    insert_topic-IsSorted t us h.1,
  )
]

sort-IsSorted : (ts : List Str) → IsSorted (sort ts)
unfolding sort
sort-IsSorted [] = tt
sort-IsSorted (t ∷ ts) = insert_topic-IsSorted t (sort ts) (sort-IsSorted ts)

dedup_after-IsAscending :
    (t : Str) (us : List Str) → IsSorted (t ∷ us) → IsAscending (t ∷ dedup_after t us)
unfolding dedup_after
dedup_after-IsAscending t [] h = (tt, tt)
dedup_after-IsAscending t (u ∷ us) h = elim (Bool-cases (str_eq u t)) [
  | inl k ↦ rw k (dedup_after-IsAscending t us (h.0.1, h.1.1))
  | inr k ↦
      let rest = dedup_after-IsAscending u us h.1 in
      let first : before t u ≡ true = ground (arith, before_cases t u, str_eq_iff u t, h.0.0) in
      rw k ((first, All-map (dedup_after u us) (λ v g. before_trans t u v first g) rest.0), rest)
]

topics-IsAscending : {F : Floats} (rules : Rules F) → IsAscending (topics_of rules)
unfolding topics_of dedup
topics-IsAscending rules =
    go (sort (collect_all rules.rules)) (sort-IsSorted (collect_all rules.rules))
  where
    go : (ts : List Str) → IsSorted ts → IsAscending (dedup ts)
    go [] h = tt
    go (t ∷ ts) h = dedup_after-IsAscending t ts h

-- What stands in a list has what all of it have.
member-All : (P : Str → Type 0) (t : Str) (ts : List Str) → All P ts → member t ts ≡ true → P t
unfolding member
member-All P t [] h m = cc
member-All P t (u ∷ us) h m = elim (Bool-cases (str_eq u t)) [
  | inl k ↦ subst P ((str_eq_iff u t).0 k) h.0
  | inr k ↦ member-All P t us h.1 (rw k at m)
]

not_member : (t : Str) (ts : List Str) → All (λ u. before t u ≡ true) ts → member t ts ≡ false
not_member t ts h = elim (Bool-cases (member t ts)) [
  | inl m ↦
      let below = member-All (λ u. before t u ≡ true) t ts h m in
      ground (arith, before_irrefl t t, below)
  | inr m ↦ m
]

-- Two strictly ascending lists with the same elements are equal.
ascending_unique :
    (ts us : List Str)
    → IsAscending ts
    → IsAscending us
    → ((x : Str) → member x ts ≡ member x us)
    → ts ≡ us
unfolding member
ascending_unique [] [] h k same = refl
ascending_unique [] (u ∷ us) h k same = ground (arith, same u, str_eq_refl u)
ascending_unique (t ∷ ts) [] h k same = ground (arith, same t, str_eq_refl t)
ascending_unique (t ∷ ts) (u ∷ us) h k same =
    let heads : t ≡ u = elim (before_cases t u) [
      | inl l ↦ absurd (
          ground (
            arith,
            same t,
            str_eq_refl t,
            str_eq_iff u t,
            l,
            str_cmp_refl t,
            before_irrefl t u l,
            member-All (λ v. before u v ≡ true) t us k.0,
          ))
      | inr (inl e) ↦ e
      | inr (inr l) ↦ absurd (
          ground (
            arith,
            same u,
            str_eq_refl u,
            str_eq_iff t u,
            l,
            str_cmp_refl u,
            before_irrefl u t l,
            member-All (λ v. before t v ≡ true) u ts h.0,
          ))
    ] in
    let tails : (x : Str) → member x ts ≡ member x us = λ x. elim (Bool-cases (str_eq t x)) [
      | inl e ↦
          let absent = not_member t ts h.0 in
          let absent' = not_member u us k.0 in
          ground (arith, (str_eq_iff t x).0 e, heads, absent, absent')
      | inr e ↦ ground (arith, same x, e, heads)
    ] in
    ap₂ ◌∷◌ heads (ascending_unique ts us h.1 k.1 tails)

module _ {F : Floats} where
  -- The list of topics that the engine compares to see whether it must subscribe anew is a canonical form:
  -- for two rulesets it is the same exactly when their triggers are on the same topics, whatever
  -- the order of the rules and of the triggers, and however often a topic occurs.
  pub topics_of_iff :
      (rules other : Rules F)
      → (topics_of rules ≡ topics_of other)
        ↔ ((t : Str) → is_mentioned t rules.rules ≡ is_mentioned t other.rules)
  topics_of_iff rules other = (
    λ e t. sym (mentioned t rules) ∙ (ap (member t) e ∙ mentioned t other),
    λ same.
        ascending_unique (topics_of rules) (topics_of other) (topics-IsAscending rules)
          (topics-IsAscending other) (λ t. mentioned t rules ∙ (same t ∙ sym (mentioned t other))),
  )
    where
      mentioned : (t : Str) (r : Rules F) → member t (topics_of r) ≡ is_mentioned t r.rules
      mentioned t r = member-topics_of t r ∙ member-collect_all t r.rules
