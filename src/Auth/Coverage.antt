-- ===== src/Auth/Coverage.antt =====
-- src/auth.rs with src/topic.rs: the namespace that the access list grants, and the topics.
use flo.Base.{
  ◌≡◌, refl, true, false, List, [], ◌∷◌, Str, codes, split, starts_with, str_eq, arith, Outcome, ok,
  err, panic, length, ◌-◌,
}
use flo.Topic.Grammar.{canonicalize, matches_one_of, TopicError}
use flo.Topic.Name
use flo.Topic.Name.{Topic}
use flo.Topic.Acl
use flo.Topic.Acl.{AclExpr, accept_inner, slice}

-- No topic of the convention has an empty first segment.
no_empty_head : (parts : List Str) → matches_one_of ([] ∷ parts) ≡ false
unfolding matches_one_of str_eq
no_empty_head [] = refl
no_empty_head (b ∷ []) = refl
no_empty_head (b ∷ c ∷ []) = refl
no_empty_head (b ∷ c ∷ d ∷ []) = refl
no_empty_head (b ∷ c ∷ d ∷ e ∷ []) = refl
no_empty_head (b ∷ c ∷ d ∷ e ∷ f ∷ parts) = refl

slash_free : (s : Str) → matches_one_of (split b'/' s) ≡ true → starts_with (codes "/") s ≡ false
unfolding split starts_with
slash_free [] h = refl
slash_free (c ∷ s) h = ground (arith, no_empty_head (split b'/' s))

inner_lem :
    (s : Str) (inner : Outcome TopicError Str) (own : AclExpr)
    → accept_inner s inner ≡ ok own
    → own.text ≡ s
unfolding accept_inner flo.Topic.Acl.unknown
inner_lem s (ok inner) own h = ground arith
inner_lem s (err e) own h = ground arith
inner_lem s panic own h = ground arith

-- Every namespace that an access list can grant begins with `/robot/`, and no topic of the convention
-- begins with a slash: read as texts, the granted namespace holds none of the robot's topics.
namespace_disjoint :
    (granted name : Str) (own : AclExpr) (topic : Topic)
    → Acl.try_new granted ≡ ok own
    → Name.try_new name ≡ ok topic
    → (starts_with (codes "/robot/") own.text ≡ true) × (starts_with (codes "/") topic.text ≡ false)
unfolding Acl.try_new Name.try_new
namespace_disjoint granted name own topic g n = (
  ground (arith, inner_lem granted (slice granted 7 (length granted - 3)) own),
  ground (arith, slash_free (canonicalize name)),
)
