-- ===== src/Engine/EdgeRule.antt =====
-- src/engine.rs: one edge trigger over two ticks, alone and behind a level trigger.
use mathlib.Core.List.{append-nil}
use flo.Base.{
  ℕ, ◌≡◌, refl, Bool, true, false, not, some, List, [], ◌∷◌, Str, lookup, lookup-insert,
  if◌then◌else◌, arith,
}
use flo.Rules.Floats.{Floats}
use flo.Rules.Model.{Action, Trigger, Rules}
use flo.Engine.Eval.{bool_eq}
use flo.Engine.State.{EvalState, PrevKey, PrevKey_eq, key_eq_iff}
use flo.Engine.Tick.{
  current, trigger_edge_matches, all_triggers, when_satisfied_with_prev, snapshot, eval_rules, tick,
}
use flo.Engine.Edges.{IsEdge}
use flo.Engine.Levels.{IsLevel}

module _ {F : Floats} where
  -- A ruleset of one rule with the given triggers under `all`.
  abbrev pub one_rule : Str → List (Trigger F) → List (Action F) → Rules F
  one_rule name triggers actions = record {
    rules =
        record { name = name; when = record { all = triggers; any = [] }; actions = actions } ∷ [];
  }

  -- What a trigger says at a tick.
  abbrev pub outcome : ℕ → EvalState F → Trigger F → Bool
  outcome now st t = current t (snapshot now st) st.zones

  pub tick_edge :
      (now : ℕ) (st : EvalState F) (name : Str) (t : Trigger F) (actions : List (Action F))
      (p : Bool)
      → IsEdge t
      → lookup {K = PrevKey} (t.topic, 0, 0) st.prev ≡ some p
      → (tick now st (one_rule name (t ∷ []) actions)).1
        ≡ (if not (bool_eq p (outcome now st t)) then actions else [])
  unfolding tick eval_rules when_satisfied_with_prev all_triggers trigger_edge_matches
  tick_edge now st name t actions p e h = rw (e, h) (ground (arith, append-nil actions))

  tick_edge_records :
      (now : ℕ) (st : EvalState F) (name : Str) (t : Trigger F) (actions : List (Action F))
      → IsEdge t
      → lookup {K = PrevKey} (t.topic, 0, 0) (tick now st (one_rule name (t ∷ []) actions)).0.prev
        ≡ some (outcome now st t)
  unfolding tick eval_rules when_satisfied_with_prev all_triggers trigger_edge_matches
  tick_edge_records now st name t actions e = rw e (
      ground (
        arith,
        lookup-insert {K = PrevKey} (t.topic, 0, 0) (t.topic, 0, 0) (outcome now st t) st.prev,
        key_eq_iff (t.topic, 0, 0) (t.topic, 0, 0),
        (key_eq_iff (t.topic, 0, 0) (t.topic, 0, 0)).1 refl,
      ))

  -- In a ruleset of one rule with one edge trigger, the rule fires at a tick exactly if the trigger's
  -- outcome differs from that of the tick before, whatever samples came in between.
  pub tick_edge_pair :
      (now later : ℕ) (st st' : EvalState F) (name : Str) (t : Trigger F)
      (actions : List (Action F))
      → IsEdge t
      → st'.prev ≡ (tick now st (one_rule name (t ∷ []) actions)).0.prev
      → (tick later st' (one_rule name (t ∷ []) actions)).1
        ≡ (if not (bool_eq (outcome now st t) (outcome later st' t)) then actions else [])
  tick_edge_pair now later st st' name t actions e kept =
      tick_edge later st' name t actions (outcome now st t) e
        (rw kept (tick_edge_records now st name t actions e))

  tick_blocked :
      (now : ℕ) (st : EvalState F) (name : Str) (gate t : Trigger F) (actions : List (Action F))
      → IsLevel gate
      → outcome now st gate ≡ false
      → (tick now st (one_rule name (gate ∷ t ∷ []) actions)).0.prev ≡ st.prev
  unfolding tick eval_rules when_satisfied_with_prev all_triggers trigger_edge_matches
  tick_blocked now st name gate t actions g h = rw g (ground arith)

  tick_behind :
      (now : ℕ) (st : EvalState F) (name : Str) (gate t : Trigger F) (actions : List (Action F))
      (p : Bool)
      → IsLevel gate
      → IsEdge t
      → outcome now st gate ≡ true
      → lookup {K = PrevKey} (t.topic, 0, 1) st.prev ≡ some p
      → outcome now st t ≡ not p
      → (tick now st (one_rule name (gate ∷ t ∷ []) actions)).1 ≡ actions
  unfolding tick eval_rules when_satisfied_with_prev all_triggers trigger_edge_matches
  tick_behind now st name gate t actions p g e open_gate h cur =
      rw (g, e, h) (ground (arith, append-nil actions))

  -- In a ruleset of one rule, an edge trigger behind a level trigger that does not hold is not looked at, so its recorded
  -- outcome ages: the rule fires when the level trigger opens, though the outcome of the edge
  -- trigger is the same at that tick as at the tick before.
  pub tick_late_edge :
      (now later : ℕ) (st st' : EvalState F) (name : Str) (gate t : Trigger F)
      (actions : List (Action F)) (p : Bool)
      → IsLevel gate
      → IsEdge t
      → lookup {K = PrevKey} (t.topic, 0, 1) st.prev ≡ some p
      → outcome now st gate ≡ false
      → outcome now st t ≡ not p
      → st'.prev ≡ (tick now st (one_rule name (gate ∷ t ∷ []) actions)).0.prev
      → outcome later st' gate ≡ true
      → outcome later st' t ≡ outcome now st t
      → (tick later st' (one_rule name (gate ∷ t ∷ []) actions)).1 ≡ actions
  tick_late_edge now later st st' name gate t actions p g e base shut cur kept opened same =
      tick_behind later st' name gate t actions p g e opened
        (rw (kept, tick_blocked now st name gate t actions g shut) base) (rw same cur)
