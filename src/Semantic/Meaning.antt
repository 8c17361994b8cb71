-- ===== src/Semantic/Meaning.antt =====
-- src/semantic.rs: the meaning of conditions and expressions, with no compilation. `sat` says of
-- each trigger whether it holds.
use flo.Base.{
  ◌≡◌, refl, Bool, true, false, ◌&&◌, ◌||◌, Option, none, some, List, [], ◌∷◌, ◌++◌, Str, codes,
  all, Lacks, ok,
}
use flo.Rules.Floats.{Floats}
use flo.Rules.Model.{
  Op, Operand, robot, human_presence, proximity, Predicate, comparison, EvalMode, edge, level,
  Trigger,
}
use flo.Topic.Validity.{robot_local_lem}
use flo.Semantic.Model.{SemanticError, Flat, SemanticWhen, when, Whens, WhenExpr, leaf, Exprs}
use flo.Semantic.When.{zone_is, distance, option_map, push_leaf, leaf_triggers, no_whens}

abbrev pub local_topic : Str → Str → Str
local_topic robot_id resource = codes "robot/" ++ (robot_id ++ (codes "/local/" ++ resource))

module _ {F : Floats} where
  abbrev pub trigger_of : Str → Str → EvalMode → Option (Predicate F) → List (Trigger F)
  trigger_of robot_id resource mode none = []
  trigger_of robot_id resource mode (some p) =
      record { topic = local_topic robot_id resource; pred = some p; mode = mode } ∷ []

  -- The triggers of the flat conditions, one for each condition that is given.
  abbrev pub flat_triggers : Flat F → Str → List (Trigger F)
  flat_triggers f id =
      trigger_of id (codes "zone") edge (option_map zone_is f.in_zone)
      ++ (trigger_of id (codes "zone") edge
            (option_map (λ z. Predicate.not (zone_is z)) f.not_in_zone)
          ++ (trigger_of id (codes "human_present") level
                (option_map (distance Op.lt human_presence) f.near_human)
              ++ (trigger_of id (codes "human_present") level
                    (option_map (distance Op.ge human_presence) f.not_near_human)
                  ++ (trigger_of id (codes "proximity") level
                        (option_map (λ n. distance Op.lt (proximity n.entity) n.dist) f.near)
                      ++ trigger_of id (codes "role") edge (
                          option_map (λ r. comparison Op.eq (Operand.prim robot) (Operand.str r))
                            f.role)))))

  -- A condition holds when all its flat conditions hold, all that is nested under `all`, and, if
  -- something is nested under `any`, one of that.
  abbrev mutual
    pub meaning : (Trigger F → Bool) → Str → SemanticWhen F → Bool
    meaning sat id (when f alls anys) =
        all sat (flat_triggers f id)
        && (every_meaning sat id alls && (no_whens anys || some_meaning sat id anys))

    pub every_meaning : (Trigger F → Bool) → Str → Whens F → Bool
    every_meaning sat id Whens.nil = true
    every_meaning sat id (Whens.cons w ws) = meaning sat id w && every_meaning sat id ws

    pub some_meaning : (Trigger F → Bool) → Str → Whens F → Bool
    some_meaning sat id Whens.nil = false
    some_meaning sat id (Whens.cons w ws) = meaning sat id w || some_meaning sat id ws

  abbrev mutual
    pub eval_expr : (Trigger F → Bool) → WhenExpr F → Bool
    eval_expr sat (leaf t) = sat t
    eval_expr sat (WhenExpr.all es) = every_expr sat es
    eval_expr sat (WhenExpr.any es) = some_expr sat es

    pub every_expr : (Trigger F → Bool) → Exprs F → Bool
    every_expr sat Exprs.nil = true
    every_expr sat (Exprs.cons e es) = eval_expr sat e && every_expr sat es

    pub some_expr : (Trigger F → Bool) → Exprs F → Bool
    some_expr sat Exprs.nil = false
    some_expr sat (Exprs.cons e es) = eval_expr sat e || some_expr sat es

  abbrev pub has_exprs : Exprs F → Bool
  has_exprs Exprs.nil = false
  has_exprs (Exprs.cons e es) = true

  -- No AND and no OR is empty.
  abbrev mutual
    pub IsFull : WhenExpr F → Type 0
    IsFull (leaf t) = Unit
    IsFull (WhenExpr.all es) = (has_exprs es ≡ true) × AllFull es
    IsFull (WhenExpr.any es) = (has_exprs es ≡ true) × AllFull es

    pub AllFull : Exprs F → Type 0
    AllFull Exprs.nil = Unit
    AllFull (Exprs.cons e es) = IsFull e × AllFull es

  push_leaf_lem :
      (id resource : Str) (o : Option (Predicate F)) (mode : EvalMode)
      → Lacks b'/' id
      → Lacks b'/' resource
      → push_leaf id resource o mode ≡ ok (trigger_of id resource mode o)
  unfolding push_leaf
  push_leaf_lem id resource none mode h k = refl
  push_leaf_lem id resource (some p) mode h k =
      rw (robot_local_lem {E = SemanticError} id resource h k)

  -- For a robot id with no slash the builder makes just these triggers.
  pub leaf_triggers_lem :
      (f : Flat F) (id : Str) → Lacks b'/' id → leaf_triggers f id ≡ ok (flat_triggers f id)
  unfolding leaf_triggers
  leaf_triggers_lem f id h = rw (
    push_leaf_lem id (codes "zone") (option_map zone_is f.in_zone) edge h refl,
    push_leaf_lem id (codes "zone") (option_map (λ z. Predicate.not (zone_is z)) f.not_in_zone) edge
        h refl,
    push_leaf_lem id (codes "human_present")
        (option_map (distance Op.lt human_presence) f.near_human) level h refl,
    push_leaf_lem id (codes "human_present")
        (option_map (distance Op.ge human_presence) f.not_near_human) level h refl,
    push_leaf_lem id (codes "proximity")
        (option_map (λ n. distance Op.lt (proximity n.entity) n.dist) f.near) level h refl,
    push_leaf_lem id (codes "role")
        (option_map (λ r. comparison Op.eq (Operand.prim robot) (Operand.str r)) f.role) edge h
        refl,
  )
