-- ===== src/Engine/Subscribe.antt =====
-- src/engine.rs: the topics of a ruleset, and the subscriptions to them.
use Prim.Native.Nat.{Ordering, gt}
use flo.Base.{
  ◌≡◌, refl, Bool, true, false, ◌||◌, List, [], ◌∷◌, ◌++◌, Str, Str_eq, str_eq, str_eq_iff, member,
  arith, if◌then◌else◌, Outcome, ok, err, panic,
}
use flo.Rules.Floats.{Floats}
use flo.Rules.Model.{Trigger, When, Rule, Rules}
use flo.Engine.Eval.{str_cmp}
use flo.Transport.Wire.{Subscription, subscribe}
use flo.Topic.Pattern
use flo.Topic.Pattern.{Pattern}

module _ {F : Floats} where
  abbrev pub topics_of_triggers : List (Trigger F) → List Str
  topics_of_triggers [] = []
  topics_of_triggers (t ∷ ts) = t.topic ∷ topics_of_triggers ts

  -- What `collect_topics` pushes.
  unfoldable pub collect_topics : When F → List Str
  collect_topics when = topics_of_triggers when.all ++ topics_of_triggers when.any

  unfoldable pub collect_all : List (Rule F) → List Str
  unfolding collect_topics
  collect_all [] = []
  collect_all (r ∷ rs) = collect_topics r.when ++ collect_all rs

abbrev pub not_after : Ordering → Bool
not_after gt = false
not_after _ = true

unfoldable pub insert_topic : Str → List Str → List Str
insert_topic t [] = t ∷ []
insert_topic t (u ∷ us) =
    let rest = insert_topic t us in if not_after (str_cmp t u) then t ∷ u ∷ us else u ∷ rest

-- `sort`
unfoldable pub sort : List Str → List Str
unfolding insert_topic
sort [] = []
sort (t ∷ ts) = insert_topic t (sort ts)

-- `dedup`: what equals the element kept just before it goes.
unfoldable pub dedup_after : Str → List Str → List Str
dedup_after t [] = []
dedup_after t (u ∷ us) =
    let skipped = dedup_after t us in
    let kept = dedup_after u us in if str_eq u t then skipped else u ∷ kept

unfoldable pub dedup : List Str → List Str
unfolding dedup_after
dedup [] = []
dedup (t ∷ ts) = t ∷ dedup_after t ts

unfoldable pub topics_of : {F : Floats} → Rules F → List Str
unfolding collect_all sort dedup
topics_of rules = dedup (sort (collect_all rules.rules))

-- A subscription with its loop: the topic under which the loop passes its samples on, and what the
-- transport has subscribed it to.
pub record Live : Type 0 where
  pub topic : Str
  pub subscription : Subscription

-- How `subscribe_to_topics` ends: the loops started, and whether it came to the end.
abbrev pub and_then : Live → List Live × Bool → List Live × Bool
and_then l (ls, done) = (l ∷ ls, done)

abbrev pub from_pattern :
    {X : Type 0} → (Pattern → Bool) → Str → Outcome X Pattern → List Live × Bool → List Live × Bool
from_pattern accepts topic (ok p) rest =
    if accepts p
    then and_then (record { topic = topic; subscription = subscribe p }) rest
    else ([], false)
from_pattern accepts topic (err e) rest = ([], false)
from_pattern accepts topic panic rest = ([], false)

-- `accepts` is whether the session takes the subscription. The first failure ends the loop.
unfoldable pub subscribe_all : (Pattern → Bool) → List Str → List Live × Bool
unfolding Pattern.try_new subscribe
subscribe_all accepts [] = ([], true)
subscribe_all accepts (t ∷ ts) =
    from_pattern accepts t (Pattern.try_new t) (subscribe_all accepts ts)

-- Every topic stays.
member-insert_topic :
    (t u : Str) (ts : List Str) → member t (insert_topic u ts) ≡ (str_eq u t || member t ts)
unfolding insert_topic member
member-insert_topic t u [] = ground arith
member-insert_topic t u (v ∷ vs) = ground (arith, member-insert_topic t u vs)

member-sort : (t : Str) (ts : List Str) → member t (sort ts) ≡ member t ts
unfolding sort member
member-sort t [] = refl
member-sort t (u ∷ us) = ground (arith, member-insert_topic t u (sort us), member-sort t us)

member-dedup_after :
    (t u : Str) (ts : List Str)
    → (str_eq u t || member t (dedup_after u ts)) ≡ (str_eq u t || member t ts)
unfolding dedup_after member
member-dedup_after t u [] = refl
member-dedup_after t u (v ∷ vs) =
    ground (arith, member-dedup_after t u vs, member-dedup_after t v vs, str_eq_iff v u)

pub member-topics_of :
    {F : Floats} (t : Str) (rules : Rules F)
    → member t (topics_of rules) ≡ member t (collect_all rules.rules)
unfolding topics_of dedup member
member-topics_of t rules =
    go (sort (collect_all rules.rules)) (member-sort t (collect_all rules.rules))
  where
    go :
        (ts : List Str)
        → member t ts ≡ member t (collect_all rules.rules)
        → member t (dedup ts) ≡ member t (collect_all rules.rules)
    go [] h = h
    go (u ∷ us) h = ground (arith, member-dedup_after t u us)
