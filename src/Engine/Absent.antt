-- ===== src/Engine/Absent.antt =====
-- src/engine.rs: payloads and samples that lack what a predicate asks for.
use flo.Base.{
  ℕ, ◌≡◌, refl, ◌⊎◌, inl, inr, true, false, Option, none, some, List, [], ◌∷◌, Str, Str_eq, lookup,
  arith,
}
use flo.Rules.Floats.{Floats}
use flo.Rules.Json.{Value}
use flo.Rules.Model.{Op, Predicate, Predicates, comparison, and, or, Action, Trigger}
use flo.Engine.Zones.{Zones}
use flo.Engine.State.{EvalState, PrevKey, PrevKey_eq}
use flo.Engine.Eval.{resolve_operand, eval_operands, eval_tree, eval_every, eval_some}
use flo.Engine.Tick.{current, fresh_at, tick}
use flo.Engine.Levels.{lookup-snapshot}
use flo.Engine.Edges.{IsEdge}
use flo.Engine.EdgeRule.{one_rule, tick_edge}

module _ {F : Floats} where
  -- A predicate with no negation, each of whose comparisons reads something that the payload lacks.
  abbrev mutual
    pub Lacking : Value F → Predicate F → Type 0
    Lacking v (comparison op l r) = (resolve_operand l v ≡ none) ⊎ (resolve_operand r v ≡ none)
    Lacking v (and ps) = SomeLacking v ps
    Lacking v (or ps) = AllLacking v ps
    Lacking v (Predicate.not p) = ⊥

    pub SomeLacking : Value F → Predicates F → Type 0
    SomeLacking v Predicates.nil = ⊥
    SomeLacking v (Predicates.cons p ps) = Lacking v p ⊎ SomeLacking v ps

    pub AllLacking : Value F → Predicates F → Type 0
    AllLacking v Predicates.nil = Unit
    AllLacking v (Predicates.cons p ps) = Lacking v p × AllLacking v ps

  lacking_operands :
      (op : Op) (l r : Option (Value F)) (zones : Zones)
      → (l ≡ none) ⊎ (r ≡ none)
      → eval_operands op l r zones ≡ false
  unfolding eval_operands
  lacking_operands op none none zones h = refl
  lacking_operands op none (some r) zones h = refl
  lacking_operands op (some l) none zones h = refl
  lacking_operands op (some l) (some r) zones h = ground arith

  mutual
    unfolding eval_tree

    lacking :
        (p : Predicate F) (v : Value F) (zones : Zones) → Lacking v p → eval_tree p v zones ≡ false
    lacking (comparison op l r) v zones h =
        lacking_operands op (resolve_operand l v) (resolve_operand r v) zones h
    lacking (and ps) v zones h = lacking_some ps v zones h
    lacking (or ps) v zones h = lacking_all ps v zones h
    lacking (Predicate.not p) v zones h = absurd h

    lacking_some :
        (ps : Predicates F) (v : Value F) (zones : Zones)
        → SomeLacking v ps
        → eval_every ps v zones ≡ false
    lacking_some Predicates.nil v zones h = absurd h
    lacking_some (Predicates.cons p ps) v zones (inl h) = ground (arith, lacking p v zones h)
    lacking_some (Predicates.cons p ps) v zones (inr h) = ground (arith, lacking_some ps v zones h)

    lacking_all :
        (ps : Predicates F) (v : Value F) (zones : Zones)
        → AllLacking v ps
        → eval_some ps v zones ≡ false
    lacking_all Predicates.nil v zones h = refl
    lacking_all (Predicates.cons p ps) v zones h =
        ground (arith, lacking p v zones h.0, lacking_all ps v zones h.1)

  -- Fail closed, for predicates with no negation: one that lacks, in a conjunction, some field that
  -- it compares, and in a disjunction one for every alternative, is false.
  eval_tree-Lacking :
      (p : Predicate F) (v : Value F) (zones : Zones) → Lacking v p → eval_tree p v zones ≡ false
  eval_tree-Lacking p v zones h = lacking p v zones h

  -- Under a negation the evaluation fails open: what lacks its field is true there.
  eval_tree-not-Lacking :
      (p : Predicate F) (v : Value F) (zones : Zones)
      → Lacking v p
      → eval_tree (Predicate.not p) v zones ≡ true
  unfolding eval_tree
  eval_tree-not-Lacking p v zones h = rw (lacking p v zones h)

  -- In a ruleset of one rule with one edge trigger, the rule fires when the sample that the trigger
  -- matched has gone stale by the next tick: the missing sample counts as a change of outcome.
  pub tick_stale_edge :
      (now timeout : ℕ) (st : EvalState F) (name : Str) (t : Trigger F) (actions : List (Action F))
      → IsEdge t
      → st.staleness_timeout ≡ some timeout
      → fresh_at now timeout (lookup t.topic st.timestamps) ≡ false
      → lookup {K = PrevKey} (t.topic, 0, 0) st.prev ≡ some true
      → (tick now st (one_rule name (t ∷ []) actions)).1 ≡ actions
  unfolding current
  tick_stale_edge now timeout st name t actions e limit old base = ground (
    arith,
    tick_edge now st name t actions true e base,
    lookup-snapshot now timeout st t.topic limit,
  )
