-- ===== src/Engine/Baseline.antt =====
-- src/engine.rs: the first tick of a ruleset, which has no outcomes to compare with.
use flo.Base.{
  ℕ, suc, ◌≤◌, ◌≡◌, ◌≢◌, refl, true, false, Option, none, some, List, [], ◌∷◌, Str, Str_eq, Map,
  lookup, is_empty, All, arith, inr,
}
use flo.Rules.Floats.{Floats}
use flo.Rules.Json.{Value}
use flo.Rules.Model.{Trigger, When, Rule, Rules}
use flo.Engine.Zones.{Zones}
use flo.Engine.State.{EvalState, Prev, PrevKey, PrevKey_eq}
use flo.Engine.Tick.{
  trigger_edge_matches, all_triggers, any_trigger, when_satisfied_with_prev, snapshot, eval_rules,
  tick, tick_with_arc,
}
use flo.Engine.Edges.{IsEdge, trigger-keeps, when_satisfied-keeps}

-- No outcome is recorded for a rule from an index on.
pub record Unseen (prev : Prev) (r i : ℕ) : Type 0 where
  pub at : (t : Str) (j : ℕ) → i ≤ j → lookup {K = PrevKey} (t, r, j) prev ≡ none

module _ {F : Floats} where
  trigger-Unseen :
      (t : Trigger F) (latest : Map Str (Value F)) (prev : Prev) (r i : ℕ) (zones : Zones)
      → IsEdge t
      → Unseen prev r i
      → (trigger_edge_matches t latest prev r i zones).0 ≡ false
  unfolding trigger_edge_matches
  trigger-Unseen t latest prev r i zones e u = rw e (ground (arith, u.at t.topic i))

  any_trigger-Unseen :
      (ts : List (Trigger F)) (latest : Map Str (Value F)) (prev : Prev) (r i : ℕ) (zones : Zones)
      → All IsEdge ts
      → Unseen prev r i
      → (any_trigger ts latest prev r i zones).0 ≡ false
  unfolding any_trigger
  any_trigger-Unseen [] latest prev r i zones e u = refl
  any_trigger-Unseen (t ∷ ts) latest prev r i zones e u =
      let prev' = (trigger_edge_matches t latest prev r i zones).1 in
      let later : Unseen prev' r (suc i) = record {
        at = λ s j h.
            rw (trigger-keeps t latest prev r i zones (s, r, j) (inr (omega arith)))
              (u.at s j (omega arith));
      } in
      ground (
        arith,
        trigger-Unseen t latest prev r i zones e.0 u,
        any_trigger-Unseen ts latest prev' r (suc i) zones e.1 later,
      )

  all_triggers-Unseen :
      (ts : List (Trigger F)) (latest : Map Str (Value F)) (prev : Prev) (r i : ℕ) (zones : Zones)
      → All IsEdge ts
      → is_empty ts ≡ false
      → Unseen prev r i
      → (all_triggers ts latest prev r i zones).0 ≡ false
  unfolding all_triggers
  all_triggers-Unseen [] latest prev r i zones e full u = cc
  all_triggers-Unseen (t ∷ ts) latest prev r i zones e full u =
      ground (arith, trigger-Unseen t latest prev r i zones e.0 u)

  all_triggers-nil :
      (latest : Map Str (Value F)) (prev : Prev) (r i : ℕ) (zones : Zones)
      → all_triggers [] latest prev r i zones ≡ (true, prev)
  unfolding all_triggers
  all_triggers-nil latest prev r i zones = refl

  -- A guard of edge triggers with no recorded outcome does not hold.
  when_satisfied-Unseen :
      (w : When F) (latest : Map Str (Value F)) (prev : Prev) (r : ℕ) (zones : Zones)
      → All IsEdge w.all
      → All IsEdge w.any
      → Unseen prev r 0
      → (when_satisfied_with_prev w latest prev r zones).0 ≡ false
  unfolding when_satisfied_with_prev
  when_satisfied-Unseen w latest prev r zones e d u = go w.all w.any e d
    where
      go :
          (ts us : List (Trigger F))
          → All IsEdge ts
          → All IsEdge us
          → (when_satisfied_with_prev (record { all = ts; any = us }) latest prev r zones).0 ≡ false
      go [] [] e d = refl
      go [] (x ∷ us) e d = ground (
        arith,
        all_triggers-nil latest prev r 0 zones,
        any_trigger-Unseen (x ∷ us) latest prev r 0 zones d u,
      )
      go (t ∷ ts) us e d =
          ground (arith, all_triggers-Unseen (t ∷ ts) latest prev r 0 zones e refl u)

  abbrev pub AllEdge : Rule F → Type 0
  AllEdge rule = All IsEdge rule.when.all × All IsEdge rule.when.any

  eval_rules-Unseen :
      (rules : List (Rule F)) (snap : Map Str (Value F)) (prev : Prev) (r : ℕ) (zones : Zones)
      → All AllEdge rules
      → ((q : ℕ) → r ≤ q → Unseen prev q 0)
      → (eval_rules rules snap prev r zones).0 ≡ []
  unfolding eval_rules
  eval_rules-Unseen [] snap prev r zones e u = refl
  eval_rules-Unseen (rule ∷ rules) snap prev r zones e u =
      let prev' = (when_satisfied_with_prev rule.when snap prev r zones).1 in
      let later : (q : ℕ) → suc r ≤ q → Unseen prev' q 0 = λ q h. record {
        at = λ s j g.
            rw (when_satisfied-keeps rule.when snap prev r zones (s, q, j) (omega arith))
              ((u q (omega arith)).at s j g);
      } in
      ground (
        arith,
        when_satisfied-Unseen rule.when snap prev r zones e.0.0 e.0.1 (u r (omega arith)),
        eval_rules-Unseen rules snap prev' (suc r) zones e.1 later,
      )

  -- After a hot reload the first tick of a ruleset of edge triggers fires nothing, whatever was
  -- recorded under the old ruleset and whatever the samples are.
  pub tick_with_arc-swapped :
      (now : ℕ) (st : EvalState F) (ptr : ℕ) (rules : Rules F)
      → All AllEdge rules.rules
      → st.last_rules ≢ some ptr
      → (tick_with_arc now st ptr rules).1 ≡ []
  unfolding tick_with_arc tick lookup
  tick_with_arc-swapped now st ptr rules e other =
      let cleared : (q : ℕ) → 0 ≤ q → Unseen [] q 0 = λ q h. record { at = λ t j g. refl } in
      go st.last_rules refl cleared
    where
      go :
          (o : Option ℕ)
          → st.last_rules ≡ o
          → ((q : ℕ) → 0 ≤ q → Unseen [] q 0)
          → (tick_with_arc now st ptr rules).1 ≡ []
      go none h u = ground (
        arith,
        h,
        eval_rules-Unseen rules.rules
            (snapshot now (record st { prev = []; last_rules = some ptr })) [] 0 st.zones e u,
      )
      go (some last) h u = ground (
        arith,
        h,
        eval_rules-Unseen rules.rules
            (snapshot now (record st { prev = []; last_rules = some ptr })) [] 0 st.zones e u,
      )
