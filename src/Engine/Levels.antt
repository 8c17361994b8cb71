-- ===== src/Engine/Levels.antt =====
-- src/engine.rs: guards whose triggers are all of the level kind, and the freshness of samples.
use flo.Base.{
  ℕ, suc, ◌≡◌, refl, Bool, true, not, ◌&&◌, ◌||◌, none, some, List, [], ◌∷◌, Str, Str_eq, Map,
  lookup, is_empty, is_some, all, any, All, length, if◌then◌else◌, arith, str_eq_iff,
}
use flo.Rules.Floats.{Floats}
use flo.Rules.Json.{Value}
use flo.Rules.Model.{level, Trigger, When}
use flo.Engine.Zones.{Zones}
use flo.Engine.State.{EvalState, Prev}
use flo.Engine.Tick.{
  current, trigger_edge_matches, all_triggers, any_trigger, when_satisfied_with_prev, snapshot,
  drop_stale, fresh_at,
}

module _ {F : Floats} where
  abbrev pub IsLevel : Trigger F → Type 0
  IsLevel t = t.mode ≡ level

  abbrev pub holds_now : Map Str (Value F) → Zones → Trigger F → Bool
  holds_now latest zones t = current t latest zones

  all_triggers-level :
      (ts : List (Trigger F)) (latest : Map Str (Value F)) (prev : Prev) (r i : ℕ) (zones : Zones)
      → All IsLevel ts
      → all_triggers ts latest prev r i zones ≡ (all (holds_now latest zones) ts, prev)
  unfolding all_triggers trigger_edge_matches
  all_triggers-level [] latest prev r i zones h = refl
  all_triggers-level (t ∷ ts) latest prev r i zones h =
      rw h.0 (ground (arith, all_triggers-level ts latest prev r (suc i) zones h.1))

  any_trigger-level :
      (ts : List (Trigger F)) (latest : Map Str (Value F)) (prev : Prev) (r i : ℕ) (zones : Zones)
      → All IsLevel ts
      → any_trigger ts latest prev r i zones ≡ (any (holds_now latest zones) ts, prev)
  unfolding any_trigger trigger_edge_matches
  any_trigger-level [] latest prev r i zones h = refl
  any_trigger-level (t ∷ ts) latest prev r i zones h =
      rw h.0 (ground (arith, any_trigger-level ts latest prev r (suc i) zones h.1))

  -- The meaning of a guard at one instant: every trigger of `all` and, if there are any, one of
  -- `any`; and a guard with no trigger never holds.
  abbrev pub guard_holds : (Trigger F → Bool) → When F → Bool
  guard_holds sat w =
      not (is_empty w.all && is_empty w.any) && (all sat w.all && (is_empty w.any || any sat w.any))

  -- A guard of level triggers holds exactly by its meaning at this instant: it depends on no earlier
  -- tick and leaves no trace for a later one.
  when_satisfied-level :
      (w : When F) (latest : Map Str (Value F)) (prev : Prev) (r : ℕ) (zones : Zones)
      → All IsLevel w.all
      → All IsLevel w.any
      → when_satisfied_with_prev w latest prev r zones
        ≡ (guard_holds (holds_now latest zones) w, prev)
  unfolding when_satisfied_with_prev
  when_satisfied-level w latest prev r zones h k = ground (
    arith,
    all_triggers-level w.all latest prev r 0 zones h,
    any_trigger-level w.any latest prev r (length w.all) zones k,
  )

  lookup-drop_stale :
      (now timeout : ℕ) (timestamps : Map Str ℕ) (latest : Map Str (Value F)) (k : Str)
      → lookup k (drop_stale now timeout timestamps latest)
        ≡ (if fresh_at now timeout (lookup k timestamps) then lookup k latest else none)
  unfolding lookup drop_stale
  lookup-drop_stale now timeout timestamps [] k = ground arith
  lookup-drop_stale now timeout timestamps ((j, v) ∷ latest) k =
      ground (arith, lookup-drop_stale now timeout timestamps latest k, str_eq_iff j k)

  -- With a timeout a tick sees of each topic the last sample, unless the time on record for it is
  -- older than the timeout; a stale topic is as absent as one that was never heard.
  pub lookup-snapshot :
      (now timeout : ℕ) (st : EvalState F) (k : Str)
      → st.staleness_timeout ≡ some timeout
      → lookup k (snapshot now st)
        ≡ (if fresh_at now timeout (lookup k st.timestamps) then lookup k st.latest else none)
  unfolding snapshot
  lookup-snapshot now timeout st k h =
      rw h (lookup-drop_stale now timeout st.timestamps st.latest k)

  current-heard :
      (latest : Map Str (Value F)) (zones : Zones) (t : Trigger F)
      → current t latest zones ≡ true
      → is_some (lookup t.topic latest) ≡ true
  unfolding current
  current-heard latest zones t h = ground arith

  all-heard :
      (latest : Map Str (Value F)) (zones : Zones) (ts : List (Trigger F))
      → all (holds_now latest zones) ts ≡ true
      → All (λ t. is_some (lookup t.topic latest) ≡ true) ts
  all-heard latest zones [] h = tt
  all-heard latest zones (t ∷ ts) h =
      (current-heard latest zones t (ground arith), all-heard latest zones ts (ground arith))

  -- Fail closed: a guard of level triggers holds only if each topic of `all` has a sample to see.
  when_satisfied-heard :
      (w : When F) (latest : Map Str (Value F)) (prev : Prev) (r : ℕ) (zones : Zones)
      → All IsLevel w.all
      → All IsLevel w.any
      → (when_satisfied_with_prev w latest prev r zones).0 ≡ true
      → All (λ t. is_some (lookup t.topic latest) ≡ true) w.all
  when_satisfied-heard w latest prev r zones h k fires =
      all-heard latest zones w.all (ground (arith, when_satisfied-level w latest prev r zones h k))
