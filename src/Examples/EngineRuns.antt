-- ===== src/Examples/EngineRuns.antt =====
-- src/engine.rs: the theorems at small states and rules.
use flo.Base.{◌≡◌, refl, true, false, some, [], ◌∷◌, Str, codes, Str_eq, Map, lookup, str_eq}
use flo.Rules.Json.{Value, null, get}
use flo.Rules.Model.{Rules}
use flo.Engine.Eval.{eval_tree, bool_eq, string_of}
use flo.Engine.State.{EvalState, Prev, PrevKey_eq}
use flo.Engine.Tick.{tick, tick_with_arc, snapshot, when_satisfied_with_prev}
use flo.Engine.Reading.{fired, tick_fires}
use flo.Engine.Baseline.{tick_with_arc-swapped}
use flo.Engine.EdgeRule.{one_rule, tick_edge_pair, tick_late_edge}
use flo.Engine.Absent.{tick_stale_edge}
use flo.Examples.Data.{floats, estop, zone_edge, power_level, zone_sample}

abbrev zone_topic : Str
zone_topic = codes "robot/r1/local/zone"

abbrev power_topic : Str
power_topic = codes "robot/r1/local/power"

abbrev docked : Map Str (Value floats)
docked = (zone_topic, zone_sample (codes "dock")) ∷ []

abbrev yard : Map Str (Value floats)
yard = (zone_topic, zone_sample (codes "yard")) ∷ []

abbrev state_with : Map Str (Value floats) → Prev → EvalState floats
state_with latest prev = record {
  latest = latest;
  zones = [];
  prev = prev;
  last_rules = some 7;
  timestamps = (zone_topic, 10) ∷ [];
  staleness_timeout = some 5;
}

abbrev edge_rules : Rules floats
edge_rules = one_rule (codes "dock") (zone_edge ∷ []) (estop ∷ [])

tick_with_arc-swapped_example :
    (tick_with_arc 12 (state_with docked (((zone_topic, 0, 0), false) ∷ [])) 8 edge_rules).1 ≡ []
tick_with_arc-swapped_example =
    tick_with_arc-swapped 12 (state_with docked (((zone_topic, 0, 0), false) ∷ [])) 8 edge_rules
      (((refl, tt), tt), tt) (λ e. cc)

-- The robot leaves the dock between two ticks, and the rule fires.
tick_edge_pair_example :
    (tick 13 (state_with yard (tick 12 (state_with docked []) edge_rules).0.prev) edge_rules).1
    ≡ estop ∷ []
unfolding flo.Engine.Tick.current lookup snapshot str_eq flo.Engine.Tick.trigger_matches
    flo.Engine.Eval.eval_predicate eval_tree flo.Engine.Eval.eval_operands
    flo.Engine.Eval.resolve_operand get flo.Engine.Eval.eval_comparison flo.Engine.Eval.values_equal
tick_edge_pair_example =
    tick_edge_pair 12 13 (state_with docked [])
      (state_with yard (tick 12 (state_with docked []) edge_rules).0.prev) (codes "dock") zone_edge
      (estop ∷ []) refl refl

abbrev gated : Rules floats
gated = one_rule (codes "gated") (power_level ∷ zone_edge ∷ []) (estop ∷ [])

abbrev before : EvalState floats
before = state_with docked (((zone_topic, 0, 1), false) ∷ [])

abbrev after : EvalState floats
after = state_with ((power_topic, null) ∷ docked) (tick 12 before gated).0.prev

tick_late_edge_example : (tick 13 after gated).1 ≡ estop ∷ []
unfolding lookup str_eq flo.Engine.Tick.current snapshot flo.Engine.Tick.trigger_matches
    flo.Engine.Eval.eval_predicate eval_tree flo.Engine.Eval.eval_operands
    flo.Engine.Eval.resolve_operand get flo.Engine.Eval.eval_comparison flo.Engine.Eval.values_equal
tick_late_edge_example =
    tick_late_edge 12 13 before after (codes "gated") power_level zone_edge (estop ∷ []) false refl
      refl refl refl refl refl refl refl

-- At a tick the level trigger holds and the edge trigger is news, so that the rule fires.
tick_fires_example : (tick 13 after gated).1 ≡ fired (snapshot 13 after) after.prev [] 0 gated.rules
tick_fires_example = tick_fires 13 after gated

abbrev was_docked : EvalState floats
was_docked = state_with docked (((zone_topic, 0, 0), true) ∷ [])

tick_stale_edge_example : (tick 20 was_docked edge_rules).1 ≡ estop ∷ []
unfolding flo.Engine.Tick.fresh_at lookup str_eq
tick_stale_edge_example =
    tick_stale_edge 20 5 was_docked (codes "dock") zone_edge (estop ∷ []) refl refl refl refl
