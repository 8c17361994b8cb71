-- ===== src/Engine/Reading.antt =====
-- src/engine.rs: what a tick fires, for any ruleset, read off the outcomes on record before it.
use flo.Base.{
  ℕ, suc, ◌+◌, ◌≤◌, ◌≡◌, refl, Bool, true, false, ◌&&◌, ◌||◌, not, List, [], ◌∷◌, ◌++◌, Str, Str_eq,
  Map, lookup, is_empty, length, if◌then◌else◌, arith, inr,
}
use flo.Rules.Floats.{Floats}
use flo.Rules.Json.{Value}
use flo.Rules.Model.{Action, EvalMode, edge, level, Trigger, When, Rule, Rules}
use flo.Engine.Zones.{Zones}
use flo.Engine.State.{EvalState, Prev, PrevKey, PrevKey_eq}
use flo.Engine.Edges.{trigger-keeps, when_satisfied-keeps}
use flo.Engine.Tick.{
  current, changed, by_mode, trigger_edge_matches, all_triggers, any_trigger,
  when_satisfied_with_prev, snapshot, eval_rules, tick,
}

-- Two records of outcomes say the same of a rule from an index on.
pub record SameFrom (prev base : Prev) (r i : ℕ) : Type 0 where
  pub at :
      (t : Str) (j : ℕ)
      → i ≤ j
      → lookup {K = PrevKey} (t, r, j) prev ≡ lookup {K = PrevKey} (t, r, j) base

module _ {F : Floats} (latest : Map Str (Value F)) (base : Prev) (zones : Zones) where
  abbrev pub read_by : EvalMode → ℕ → ℕ → Trigger F → Bool
  read_by level r i t = current t latest zones
  read_by edge r i t = changed (lookup {K = PrevKey} (t.topic, r, i) base) (current t latest zones)

  -- What the trigger at an index of a rule says: a level trigger what it says now, an edge trigger
  -- whether that differs from the outcome on record.
  abbrev pub reading : ℕ → ℕ → Trigger F → Bool
  reading r i t = read_by t.mode r i t

  abbrev pub every_reading : ℕ → ℕ → List (Trigger F) → Bool
  every_reading r i [] = true
  every_reading r i (t ∷ ts) = reading r i t && every_reading r (suc i) ts

  abbrev pub some_reading : ℕ → ℕ → List (Trigger F) → Bool
  some_reading r i [] = false
  some_reading r i (t ∷ ts) = reading r i t || some_reading r (suc i) ts

  -- The indices of the `any` group follow those of the `all` group.
  abbrev pub guard_reading : ℕ → When F → Bool
  guard_reading r w =
      not (is_empty w.all && is_empty w.any)
      && (every_reading r 0 w.all && (is_empty w.any || some_reading r (length w.all) w.any))

  -- The actions of the rules whose guards hold, in order.
  abbrev pub fired : ℕ → List (Rule F) → List (Action F)
  fired r [] = []
  fired r (rule ∷ rules) =
      if guard_reading r rule.when then rule.actions ++ fired (suc r) rules else fired (suc r) rules

  trigger_lem :
      (t : Trigger F) (prev : Prev) (r i : ℕ)
      → SameFrom prev base r i
      → (trigger_edge_matches t latest prev r i zones).0 ≡ reading r i t
  unfolding trigger_edge_matches
  trigger_lem t prev r i same = go t.mode
    where
      go :
          (m : EvalMode)
          → (by_mode m (t.topic, r, i) (current t latest zones) prev).0 ≡ read_by m r i t
      go level = refl
      go edge = rw (same.at t.topic i (omega arith)) refl

  trigger-SameFrom :
      (t : Trigger F) (prev : Prev) (r i : ℕ)
      → SameFrom prev base r i
      → SameFrom (trigger_edge_matches t latest prev r i zones).1 base r (suc i)
  trigger-SameFrom t prev r i same = record {
    at = λ s j h.
        rw (trigger-keeps t latest prev r i zones (s, r, j) (inr (omega arith)))
          (same.at s j (omega arith));
  }

  all_triggers_lem :
      (ts : List (Trigger F)) (prev : Prev) (r i : ℕ)
      → SameFrom prev base r i
      → (all_triggers ts latest prev r i zones).0 ≡ every_reading r i ts
  unfolding all_triggers
  all_triggers_lem [] prev r i same = refl
  all_triggers_lem (t ∷ ts) prev r i same = ground (
    arith,
    trigger_lem t prev r i same,
    all_triggers_lem ts (trigger_edge_matches t latest prev r i zones).1 r (suc i)
        (trigger-SameFrom t prev r i same),
  )

  any_trigger_lem :
      (ts : List (Trigger F)) (prev : Prev) (r i : ℕ)
      → SameFrom prev base r i
      → (any_trigger ts latest prev r i zones).0 ≡ some_reading r i ts
  unfolding any_trigger
  any_trigger_lem [] prev r i same = refl
  any_trigger_lem (t ∷ ts) prev r i same = ground (
    arith,
    trigger_lem t prev r i same,
    any_trigger_lem ts (trigger_edge_matches t latest prev r i zones).1 r (suc i)
        (trigger-SameFrom t prev r i same),
  )

  -- The `all` group records nothing from the indices of the `any` group on.
  all_triggers-SameFrom :
      (ts : List (Trigger F)) (prev : Prev) (r i : ℕ)
      → SameFrom prev base r i
      → SameFrom (all_triggers ts latest prev r i zones).1 base r (i + length ts)
  unfolding all_triggers
  all_triggers-SameFrom [] prev r i same = record { at = λ s j h. same.at s j (omega arith) }
  all_triggers-SameFrom (t ∷ ts) prev r i same = record {
    at = λ s j h.
        let one = trigger-SameFrom t prev r i same in
        let rest =
          all_triggers-SameFrom ts (trigger_edge_matches t latest prev r i zones).1 r (suc i) one in
        ground (arith, one.at s j, rest.at s j);
  }

  when_satisfied_lem :
      (w : When F) (prev : Prev) (r : ℕ)
      → SameFrom prev base r 0
      → (when_satisfied_with_prev w latest prev r zones).0 ≡ guard_reading r w
  unfolding when_satisfied_with_prev
  when_satisfied_lem w prev r same = ground (
    arith,
    all_triggers_lem w.all prev r 0 same,
    any_trigger_lem w.any (all_triggers w.all latest prev r 0 zones).1 r (length w.all)
        (record { at = λ s j h. (all_triggers-SameFrom w.all prev r 0 same).at s j (omega arith) }),
  )

  eval_rules_lem :
      (rules : List (Rule F)) (prev : Prev) (r : ℕ)
      → ((q : ℕ) → r ≤ q → SameFrom prev base q 0)
      → (eval_rules rules latest prev r zones).0 ≡ fired r rules
  unfolding eval_rules
  eval_rules_lem [] prev r same = refl
  eval_rules_lem (rule ∷ rules) prev r same =
      let prev' = (when_satisfied_with_prev rule.when latest prev r zones).1 in
      let later : (q : ℕ) → suc r ≤ q → SameFrom prev' base q 0 = λ q h. record {
        at = λ s j g.
            rw (when_satisfied-keeps rule.when latest prev r zones (s, q, j) (omega arith))
              ((same q (omega arith)).at s j g);
      } in
      ground (
        arith,
        when_satisfied_lem rule.when prev r (same r (omega arith)),
        eval_rules_lem rules prev' (suc r) later,
      )

module _ {F : Floats} where
  -- Whatever the ruleset is, a tick fires just the actions of the rules whose guards hold when each
  -- trigger is read against the outcomes on record before the tick: what the tick itself records, and
  -- where its evaluation stops short, changes nothing about it.
  pub tick_fires :
      (now : ℕ) (st : EvalState F) (rules : Rules F)
      → (tick now st rules).1 ≡ fired (snapshot now st) st.prev st.zones 0 rules.rules
  unfolding tick
  tick_fires now st rules =
      eval_rules_lem (snapshot now st) st.prev st.zones rules.rules st.prev 0
        (λ q h. record { at = λ t j g. refl })
