-- ===== src/Semantic/TickSound.antt =====
-- src/semantic.rs with src/engine.rs: what the engine fires on a compiled document.
use flo.Base.{
  ℕ, suc, ◌≡◌, refl, Bool, Option, List, [], ◌∷◌, ◌++◌, Str, Str_eq, Map, Lacks, lookup, all, any,
  length, if◌then◌else◌, ok,
}
use flo.Rules.Floats.{Floats}
use flo.Rules.Json.{Value}
use flo.Rules.Model.{Action, EvalMode, edge, level, Trigger, When, Rule, Rules}
use flo.Engine.Zones.{Zones}
use flo.Engine.State.{EvalState, Prev, PrevKey, PrevKey_eq}
use flo.Engine.Levels.{guard_holds}
use flo.Engine.Tick.{current, changed, snapshot, tick}
use flo.Engine.Reading.{
  read_by, reading, every_reading, some_reading, guard_reading, fired, tick_fires,
}
use flo.Semantic.Model.{SemanticRule, RulesManifest}
use flo.Semantic.Meaning.{meaning}
use flo.Semantic.Compile.{compile}
use flo.Semantic.CompileSound.{AreCompiled, compile_sound}

-- A level trigger says what it says now, an edge trigger whether that is news.
abbrev pub says_by : EvalMode → Option Bool → Bool → Bool
says_by level seen cur = cur
says_by edge seen cur = changed seen cur

module _ {F : Floats} where
  -- The outcomes on record for a rule are those that `seen` tells: of each edge trigger of the rule,
  -- at its index.
  abbrev pub IsSeen : Prev → (Trigger F → Option Bool) → ℕ → ℕ → List (Trigger F) → Type 0
  IsSeen prev seen r i [] = Unit
  IsSeen prev seen r i (t ∷ ts) =
      (t.mode ≡ edge → lookup {K = PrevKey} (t.topic, r, i) prev ≡ seen t)
      × IsSeen prev seen r (suc i) ts

  -- The same for every rule from an index on: `seen` depends on the rule too.
  abbrev pub AreSeen : Prev → (ℕ → Trigger F → Option Bool) → ℕ → List (Rule F) → Type 0
  AreSeen prev seen r [] = Unit
  AreSeen prev seen r (rule ∷ rules) =
      IsSeen prev (seen r) r 0 rule.when.all
      × IsSeen prev (seen r) r (length rule.when.all) rule.when.any
      × AreSeen prev seen (suc r) rules

  -- What a trigger says.
  abbrev pub says : Map Str (Value F) → Zones → (Trigger F → Option Bool) → Trigger F → Bool
  says latest zones seen t = says_by t.mode (seen t) (current t latest zones)

  -- The actions of the rules whose semantic conditions hold, in order.
  abbrev pub meant :
      Map Str (Value F)
      → Zones
      → (ℕ → Trigger F → Option Bool)
      → Str
      → ℕ
      → List (SemanticRule F)
      → List (Rule F)
      → List (Action F)
  meant latest zones seen id r (source ∷ sources) (rule ∷ rules) =
      if meaning (says latest zones (seen r)) id source.when
      then rule.actions ++ meant latest zones seen id (suc r) sources rules
      else meant latest zones seen id (suc r) sources rules
  meant latest zones seen id r _ _ = []

  module _ (latest : Map Str (Value F)) (prev : Prev) (zones : Zones) where
    reading_lem :
        (seen : Trigger F → Option Bool) (t : Trigger F) (r i : ℕ)
        → (t.mode ≡ edge → lookup {K = PrevKey} (t.topic, r, i) prev ≡ seen t)
        → reading latest prev zones r i t ≡ says latest zones seen t
    reading_lem seen t r i h = go t.mode h
      where
        go :
            (m : EvalMode)
            → (m ≡ edge → lookup {K = PrevKey} (t.topic, r, i) prev ≡ seen t)
            → read_by latest prev zones m r i t ≡ says_by m (seen t) (current t latest zones)
        go level h = refl
        go edge h = rw (h refl) refl

    every_lem :
        (seen : Trigger F → Option Bool) (ts : List (Trigger F)) (r i : ℕ)
        → IsSeen prev seen r i ts
        → every_reading latest prev zones r i ts ≡ all (says latest zones seen) ts
    every_lem seen [] r i h = refl
    every_lem seen (t ∷ ts) r i h =
        rw (reading_lem seen t r i h.0, every_lem seen ts r (suc i) h.1) refl

    some_lem :
        (seen : Trigger F → Option Bool) (ts : List (Trigger F)) (r i : ℕ)
        → IsSeen prev seen r i ts
        → some_reading latest prev zones r i ts ≡ any (says latest zones seen) ts
    some_lem seen [] r i h = refl
    some_lem seen (t ∷ ts) r i h =
        rw (reading_lem seen t r i h.0, some_lem seen ts r (suc i) h.1) refl

    guard_lem :
        (seen : Trigger F → Option Bool) (w : When F) (r : ℕ)
        → IsSeen prev seen r 0 w.all
        → IsSeen prev seen r (length w.all) w.any
        → guard_reading latest prev zones r w ≡ guard_holds (says latest zones seen) w
    guard_lem seen w r h k =
        rw (every_lem seen w.all r 0 h, some_lem seen w.any r (length w.all) k) refl

    fired_lem :
        (seen : ℕ → Trigger F → Option Bool) (id : Str) (r : ℕ) (sources : List (SemanticRule F))
        (rules : List (Rule F))
        → AreCompiled id sources rules
        → AreSeen prev seen r rules
        → fired latest prev zones r rules ≡ meant latest zones seen id r sources rules
    fired_lem seen id r [] [] c h = refl
    fired_lem seen id r (source ∷ sources) (rule ∷ rules) ((name, count, topics, means), c)
          (h, k, l) =
        rw
          (
            guard_lem (seen r) rule.when r h k,
            means (says latest zones (seen r)),
            fired_lem seen id (suc r) sources rules c l,
          )
          refl
    fired_lem seen id r [] (rule ∷ rules) c h = absurd c
    fired_lem seen id r (source ∷ sources) [] c h = absurd c

  -- From the document to the actions: when a document is compiled for a robot whose id has no slash, a
  -- tick of the engine fires, in order, the actions of just the rules whose semantic conditions hold,
  -- where a level condition is read now and an edge condition holds if its outcome differs from the
  -- one on record for it (`seen`, which the record bears out at every edge trigger of the ruleset).
  pub semantic_tick :
      (doc : RulesManifest F) (id : Str) (rules : Rules F) (now : ℕ) (st : EvalState F)
      (seen : ℕ → Trigger F → Option Bool)
      → Lacks b'/' id
      → compile doc id ≡ ok rules
      → AreSeen st.prev seen 0 rules.rules
      → (tick now st rules).1 ≡ meant (snapshot now st) st.zones seen id 0 doc.rules rules.rules
  semantic_tick doc id rules now st seen plain compiled h = rw (tick_fires now st rules) (
      fired_lem (snapshot now st) st.prev st.zones seen id 0 doc.rules rules.rules
        (compile_sound doc id rules plain compiled) h)
