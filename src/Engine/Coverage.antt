-- ===== src/Engine/Coverage.antt =====
-- src/engine.rs: the topics of the triggers, and the loops that pass their samples on.
use flo.Base.{
  ℕ, Option, ◌≡◌, refl, ap, sym, ◌∙◌, Bool, true, false, not, ◌&&◌, str_eq_refl, contains_str,
  codes, ◌||◌, List, [], ◌∷◌, ◌++◌, Str, Str_eq, str_eq, str_eq_iff, member, any, any-append, arith,
  inl, inr, Bool-cases, Outcome, ok, err, panic,
}
use flo.Rules.Floats.{Floats}
use flo.Rules.Json.{Value}
use flo.Rules.Model.{Rule, Trigger}
use flo.Topic.Grammar.{TopicError}
use flo.Transport.Wire.{Subscription, samples, liveliness, subscribe}
use flo.Topic.Pattern
use flo.Topic.Pattern.{Pattern}
use flo.Engine.Subscribe.{
  Live, topics_of, topics_of_triggers, collect_topics, collect_all, member-topics_of, subscribe_all,
  from_pattern,
}
use flo.Engine.Run.{Engine, same_topics, subscribe_to_topics, rebuild}

-- The subscription is to the samples of the topic, as a pattern: not to the liveliness interface.
abbrev is_samples : Outcome TopicError Pattern → Subscription → Bool
is_samples (ok p) (samples key) = str_eq key p.text
is_samples (ok p) (liveliness key) = false
is_samples (err e) subscription = false
is_samples panic subscription = false

-- A loop passes on the samples of this topic, under the topic.
unfoldable pub is_heard : Str → List Live → Bool
unfolding Pattern.try_new
is_heard t live = any (λ l. str_eq l.topic t && is_samples (Pattern.try_new t) l.subscription) live

-- The topic is a valid pattern without the word `liveliness`, which makes the transport turn to the
-- liveliness interface.
unfoldable pub is_sampled : Str → Bool
unfolding contains_str Pattern.try_new
is_sampled t = elim (Pattern.try_new t) [
  | ok p ↦ not (contains_str (codes "liveliness") p.text)
  | err e ↦ false
  | panic ↦ false
]

heard-append :
    (t : Str) (ls ms : List Live) → is_heard t (ls ++ ms) ≡ (is_heard t ls || is_heard t ms)
unfolding is_heard
heard-append t ls ms = any-append _ ls ms

taken_lem :
    (t : Str) (p : Pattern)
    → Pattern.try_new t ≡ ok p
    → is_sampled t ≡ true
    → is_samples (Pattern.try_new t) (subscribe p) ≡ true
unfolding is_sampled subscribe
taken_lem t p e h = ground (arith, e, str_eq_refl p.text)

heard_lem :
    (t u : Str) (p : Pattern)
    → Pattern.try_new u ≡ ok p
    → is_sampled t ≡ true
    → (str_eq u t && is_samples (Pattern.try_new t) (subscribe p)) ≡ str_eq u t
heard_lem t u p e h = elim (Bool-cases (str_eq u t)) [
  | inl k ↦
      let same : u ≡ t = ground (arith, k, str_eq_iff u t) in
      let found : Pattern.try_new t ≡ ok p = ap Pattern.try_new (sym same) ∙ e in
      ground (arith, k, taken_lem t p found h)
  | inr k ↦ ground (arith, k)
]

same_topics_lem : (ss ts : List Str) → same_topics ss ts ≡ true → ss ≡ ts
same_topics_lem [] [] h = refl
same_topics_lem [] (t ∷ ts) h = cc
same_topics_lem (s ∷ ss) [] h = cc
same_topics_lem (s ∷ ss) (t ∷ ts) h = ground (arith, same_topics_lem ss ts, str_eq_iff s t)

module _ (accepts : Pattern → Bool) where
  -- Where the loop over the topics comes to its end, each has its own loop.
  subscribe_lem :
      (t : Str) (ts : List Str)
      → is_sampled t ≡ true
      → (subscribe_all accepts ts).1 ≡ true
      → is_heard t (subscribe_all accepts ts).0 ≡ member t ts
  unfolding subscribe_all member is_heard
  subscribe_lem t [] s h = refl
  subscribe_lem t (u ∷ us) s h = go (Pattern.try_new u) refl (subscribe_lem t us s) h
    where
      go :
          (p : Outcome TopicError Pattern)
          → Pattern.try_new u ≡ p
          → ((subscribe_all accepts us).1 ≡ true
              → is_heard t (subscribe_all accepts us).0 ≡ member t us)
          → (from_pattern accepts u p (subscribe_all accepts us)).1 ≡ true
          → is_heard t (from_pattern accepts u p (subscribe_all accepts us)).0
            ≡ (str_eq u t || member t us)
      go (ok p) e later h = ground (arith, later, heard_lem t u p e s)
      go (err x) e later h = cc
      go panic e later h = cc

-- A trigger of a rule is on this topic, be it of the `all` group or of the `any` group.
abbrev pub is_mentioned : {F : Floats} → Str → List (Rule F) → Bool
is_mentioned t rules =
    any (λ r. any (λ c. str_eq c.topic t) r.when.all || any (λ c. str_eq c.topic t) r.when.any)
      rules

member-topics_of_triggers :
    {F : Floats} (t : Str) (cs : List (Trigger F))
    → member t (topics_of_triggers cs) ≡ any (λ c. str_eq c.topic t) cs
unfolding member
member-topics_of_triggers t [] = refl
member-topics_of_triggers t (c ∷ cs) = ground (arith, member-topics_of_triggers t cs)

member-append : (t : Str) (ss ts : List Str) → member t (ss ++ ts) ≡ (member t ss || member t ts)
unfolding member
member-append t [] ts = refl
member-append t (s ∷ ss) ts = ground (arith, member-append t ss ts)

pub member-collect_all :
    {F : Floats} (t : Str) (rules : List (Rule F))
    → member t (collect_all rules) ≡ is_mentioned t rules
unfolding collect_all collect_topics member
member-collect_all t [] = refl
member-collect_all t (r ∷ rs) = ground (
  arith,
  member-append t (collect_topics r.when) (collect_all rs),
  member-append t (topics_of_triggers r.when.all) (topics_of_triggers r.when.any),
  member-topics_of_triggers t r.when.all,
  member-topics_of_triggers t r.when.any,
  member-collect_all t rs,
)

module _ {F : Floats} (to_vec : Value F → Option (List ℕ)) (accepts : Pattern → Bool) where
  -- Every topic of the last successful subscription that is sampled is heard.
  abbrev pub IsCovered : Engine F → Type 0
  IsCovered e =
      (t : Str) → is_sampled t ≡ true → member t e.current_topics ≡ true → is_heard t e.live ≡ true

  -- Where every sampled topic of the last subscription is heard, and the engine has taken note of a new
  -- ruleset all of whose topics the session has accepted: this holds again, and of every trigger of the
  -- ruleset whose topic is a valid pattern without the word `liveliness`, a loop that is subscribed to
  -- the topic's samples passes them on under the topic.
  pub rebuild_covers :
      (e : Engine F)
      → IsCovered e
      → (subscribe_all accepts (topics_of e.active.rules)).1 ≡ true
      → IsCovered (rebuild to_vec accepts e)
        × ((t : Str)
            → is_sampled t ≡ true
            → is_mentioned t e.active.rules.rules ≡ true
            → is_heard t (rebuild to_vec accepts e).live ≡ true)
  unfolding rebuild subscribe_to_topics
  rebuild_covers e covered done =
      let topics_lem : (t : Str)
          → member t (topics_of e.active.rules) ≡ is_mentioned t e.active.rules.rules =
        λ t. member-topics_of t e.active.rules ∙ member-collect_all t e.active.rules.rules in
      let added : (t : Str)
          → is_sampled t ≡ true
          → member t (topics_of e.active.rules) ≡ true
          → is_heard t (e.live ++ (subscribe_all accepts (topics_of e.active.rules)).0) ≡ true =
        λ t s h. ground (
          arith,
          heard-append t e.live (subscribe_all accepts (topics_of e.active.rules)).0,
          subscribe_lem accepts t (topics_of e.active.rules) s done,
        ) in
      elim (Bool-cases (same_topics (topics_of e.active.rules) e.current_topics)) [
        | inl k ↦
            rw (rebuild, k)
              (
                covered,
                λ t s h.
                    covered t s (ap (member t) (sym (same_topics_lem _ _ k)) ∙ (topics_lem t ∙ h)),
              )
        | inr k ↦
            rw (rebuild, k, subscribe_to_topics, done)
              (λ t s h. added t s h, λ t s h. added t s (topics_lem t ∙ h))
      ]
