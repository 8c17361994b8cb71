-- ===== src/Engine/Edges.antt =====
-- src/engine.rs: edge triggers, which compare a tick with the last recorded outcome.
use flo.Base.{
  ℕ, suc, ◌≡◌, ◌≢◌, refl, List, [], ◌∷◌, Str, Str_eq, Map, lookup, lookup-insert, length, arith,
  inl, ◌⊎◌,
}
use flo.Rules.Floats.{Floats}
use flo.Rules.Json.{Value}
use flo.Rules.Model.{EvalMode, edge, level, Trigger, When}
use flo.Engine.Zones.{Zones}
use flo.Engine.State.{Prev, PrevKey, PrevKey_eq}
use flo.Engine.Tick.{
  current, trigger_edge_matches, by_mode, all_triggers, any_trigger, when_satisfied_with_prev,
}

module _ {F : Floats} where
  abbrev pub IsEdge : Trigger F → Type 0
  IsEdge t = t.mode ≡ edge

  -- A trigger records nothing under another rule or another index.
  pub trigger-keeps :
      (t : Trigger F) (latest : Map Str (Value F)) (prev : Prev) (r i : ℕ) (zones : Zones)
      (k : PrevKey)
      → (k.1 ≢ r) ⊎ (k.2 ≢ i)
      → lookup k (trigger_edge_matches t latest prev r i zones).1 ≡ lookup k prev
  unfolding trigger_edge_matches
  trigger-keeps t latest prev r i zones k h = go t.mode
    where
      go :
          (m : EvalMode)
          → lookup k (by_mode m (t.topic, r, i) (current t latest zones) prev).1 ≡ lookup k prev
      go level = refl
      go edge = ground (arith, lookup-insert k (t.topic, r, i) (current t latest zones) prev)

  all_triggers-keeps :
      (ts : List (Trigger F)) (latest : Map Str (Value F)) (prev : Prev) (r i : ℕ) (zones : Zones)
      (k : PrevKey)
      → k.1 ≢ r
      → lookup k (all_triggers ts latest prev r i zones).1 ≡ lookup k prev
  unfolding all_triggers
  all_triggers-keeps [] latest prev r i zones k h = refl
  all_triggers-keeps (t ∷ ts) latest prev r i zones k h = ground (
    arith,
    trigger-keeps t latest prev r i zones k (inl h),
    all_triggers-keeps ts latest (trigger_edge_matches t latest prev r i zones).1 r (suc i) zones k
        h,
  )

  any_trigger-keeps :
      (ts : List (Trigger F)) (latest : Map Str (Value F)) (prev : Prev) (r i : ℕ) (zones : Zones)
      (k : PrevKey)
      → k.1 ≢ r
      → lookup k (any_trigger ts latest prev r i zones).1 ≡ lookup k prev
  unfolding any_trigger
  any_trigger-keeps [] latest prev r i zones k h = refl
  any_trigger-keeps (t ∷ ts) latest prev r i zones k h = ground (
    arith,
    trigger-keeps t latest prev r i zones k (inl h),
    any_trigger-keeps ts latest (trigger_edge_matches t latest prev r i zones).1 r (suc i) zones k
        h,
  )

  -- A rule's guard records nothing under another rule: rules do not disturb one another.
  pub when_satisfied-keeps :
      (w : When F) (latest : Map Str (Value F)) (prev : Prev) (r : ℕ) (zones : Zones) (k : PrevKey)
      → k.1 ≢ r
      → lookup k (when_satisfied_with_prev w latest prev r zones).1 ≡ lookup k prev
  unfolding when_satisfied_with_prev
  when_satisfied-keeps w latest prev r zones k h = ground (
    arith,
    all_triggers-keeps w.all latest prev r 0 zones k h,
    any_trigger-keeps w.any latest (all_triggers w.all latest prev r 0 zones).1 r (length w.all)
        zones k h,
  )
