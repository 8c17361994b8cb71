-- ===== src/Engine/Tick.antt =====
-- src/engine.rs: one tick, the evaluation of every rule against the latest samples.
use flo.Base.{
  ℕ, suc, ◌-◌, Bool, true, false, ◌&&◌, not, Option, none, some, List, [], ◌∷◌, ◌++◌, Str, Str_eq,
  Map, str_eq, nat_eq, lookup, insert, leb, length, is_empty, if◌then◌else◌,
}
use flo.Rules.Floats.{Floats}
use flo.Rules.Json.{Value}
use flo.Rules.Model.{Action, EvalMode, edge, level, Trigger, When, Rule, Rules}
use flo.Engine.Zones.{Zones}
use flo.Engine.Eval.{eval_predicate, bool_eq}
use flo.Engine.State.{EvalState, Prev, PrevKey, PrevKey_eq}

abbrev pub changed : Option Bool → Bool → Bool
changed none cur = false
changed (some p) cur = not (bool_eq p cur)

unfoldable pub by_mode : EvalMode → PrevKey → Bool → Prev → Bool × Prev
by_mode level key cur prev = (cur, prev)
by_mode edge key cur prev = (changed (lookup key prev) cur, insert key cur prev)

unfoldable pub fresh_at : ℕ → ℕ → Option ℕ → Bool
fresh_at now timeout none = true
fresh_at now timeout (some ts) = leb (now - ts) timeout

module _ {F : Floats} where
  unfoldable pub trigger_matches : Trigger F → Str → Value F → Zones → Bool
  trigger_matches trigger topic payload zones =
      str_eq topic trigger.topic && eval_predicate trigger.pred payload zones

  unfoldable pub match_latest : Trigger F → Option (Value F) → Zones → Bool
  match_latest trigger none zones = false
  match_latest trigger (some p) zones = trigger_matches trigger trigger.topic p zones

  -- What a trigger says of the latest sample on its topic.
  unfoldable pub current : Trigger F → Map Str (Value F) → Zones → Bool
  unfolding match_latest
  current trigger latest zones = match_latest trigger (lookup trigger.topic latest) zones

  unfoldable pub trigger_edge_matches :
      Trigger F → Map Str (Value F) → Prev → ℕ → ℕ → Zones → Bool × Prev
  unfolding by_mode
  trigger_edge_matches trigger latest prev rule_idx trigger_idx zones =
      by_mode trigger.mode (trigger.topic, rule_idx, trigger_idx) (current trigger latest zones)
        prev

  -- `iter().all`, which stops at the first trigger that does not hold.
  unfoldable pub all_triggers :
      List (Trigger F) → Map Str (Value F) → Prev → ℕ → ℕ → Zones → Bool × Prev
  all_triggers [] latest prev rule_idx i zones = (true, prev)
  all_triggers (t ∷ ts) latest prev rule_idx i zones =
      let (holds, prev') = trigger_edge_matches t latest prev rule_idx i zones in
      let rest = all_triggers ts latest prev' rule_idx (suc i) zones in
      if holds then rest else (false, prev')

  -- `iter().any`, which stops at the first trigger that holds.
  unfoldable pub any_trigger :
      List (Trigger F) → Map Str (Value F) → Prev → ℕ → ℕ → Zones → Bool × Prev
  any_trigger [] latest prev rule_idx i zones = (false, prev)
  any_trigger (t ∷ ts) latest prev rule_idx i zones =
      let (holds, prev') = trigger_edge_matches t latest prev rule_idx i zones in
      let rest = any_trigger ts latest prev' rule_idx (suc i) zones in
      if holds then (true, prev') else rest

  -- An empty guard never holds. The `any` group is evaluated also where the `all` group failed.
  unfoldable pub when_satisfied_with_prev :
      When F → Map Str (Value F) → Prev → ℕ → Zones → Bool × Prev
  when_satisfied_with_prev when latest prev rule_idx zones =
      if is_empty when.all && is_empty when.any
      then (false, prev)
      else (let (all_ok, prev') = all_triggers when.all latest prev rule_idx 0 zones in
          let (any_ok, prev'') =
            if is_empty when.any
            then (true, prev')
            else any_trigger when.any latest prev' rule_idx (length when.all) zones in
          (all_ok && any_ok, prev''))

  unfoldable pub drop_stale : ℕ → ℕ → Map Str ℕ → Map Str (Value F) → Map Str (Value F)
  unfolding fresh_at
  drop_stale now timeout timestamps [] = []
  drop_stale now timeout timestamps ((k, v) ∷ latest) =
      let rest = drop_stale now timeout timestamps latest in
      if fresh_at now timeout (lookup k timestamps) then (k, v) ∷ rest else rest

  -- The samples that a tick sees: the fresh ones, or all without a timeout.
  unfoldable pub snapshot : ℕ → EvalState F → Map Str (Value F)
  unfolding drop_stale
  snapshot now st = elim st.staleness_timeout [
    | none ↦ st.latest
    | some timeout ↦ drop_stale now timeout st.timestamps st.latest
  ]

  unfoldable pub eval_rules :
      List (Rule F) → Map Str (Value F) → Prev → ℕ → Zones → List (Action F) × Prev
  eval_rules [] snap prev rule_idx zones = ([], prev)
  eval_rules (rule ∷ rules) snap prev rule_idx zones =
      let (fires, prev') = when_satisfied_with_prev rule.when snap prev rule_idx zones in
      let (actions, prev'') = eval_rules rules snap prev' (suc rule_idx) zones in
      (if fires then rule.actions ++ actions else actions, prev'')

  -- `tick` and `tick_inner`
  unfoldable pub tick : ℕ → EvalState F → Rules F → EvalState F × List (Action F)
  tick now st rules =
      let (actions, prev) = eval_rules rules.rules (snapshot now st) st.prev 0 st.zones in
      (record st { prev = prev }, actions)

  -- `ptr` is the identity of the `Arc`; a new one clears the baseline of the edge triggers.
  unfoldable pub note_rules : EvalState F → ℕ → EvalState F
  note_rules st ptr = elim st.last_rules [
    | none ↦ record st { prev = []; last_rules = some ptr }
    | some last ↦ if nat_eq last ptr then st else record st { prev = []; last_rules = some ptr }
  ]

  unfoldable pub tick_with_arc : ℕ → EvalState F → ℕ → Rules F → EvalState F × List (Action F)
  unfolding note_rules
  tick_with_arc now st ptr rules = tick now (note_rules st ptr) rules
