-- ===== src/Semantic/When.antt =====
-- src/semantic.rs: `build_when_expr`, which checks a `when` and builds its expression.
use flo.Base.{
  ℕ, suc, Bool, true, false, not, ◌&&◌, ◌||◌, Option, none, some, List, [], ◌∷◌, ◌++◌, Str, Str_eq,
  codes, Map, lookup, show_ℕ, is_some, if◌then◌else◌, Outcome, ok, err, panic, ◌>>=◌, ◌>>◌,
}
use flo.Rules.Floats.{Floats, is_le}
use flo.Rules.Model.{
  Op, Operand, PrimitiveRef, zone, robot, human_presence, proximity, Predicate, comparison,
  EvalMode, edge, level, Trigger,
}
use flo.Topic.Builders.{robot_local}
use flo.Semantic.Model.{
  SemanticError, error, with_path, empty_when, invalid_distance, unknown_zone, Zone, NearSpec, Flat,
  SemanticWhen, when, Whens, WhenExpr, all, any, leaf, Exprs,
}

-- `{path}.{word}[{idx}]`
abbrev pub child_path : Str → Str → ℕ → Str
child_path path word idx = path ++ (word ++ (codes "[" ++ (show_ℕ idx ++ codes "]")))

-- `d <= 0.0`, of a distance that is given
abbrev pub bad_distance : (F : Floats) → Option F.F64 → Bool
bad_distance F none = false
bad_distance F (some d) = is_le (F.partial_cmp d F.zero)

abbrev pub option_map {ℓ} : {A B : Type ℓ} → (A → B) → Option A → Option B
option_map f none = none
option_map f (some a) = some (f a)

module _ {F : Floats} where
  abbrev pub no_whens : Whens F → Bool
  no_whens Whens.nil = true
  no_whens (Whens.cons w ws) = false

  abbrev pub no_flat : Flat F → Bool
  no_flat f =
      not (is_some f.in_zone)
      && (not (is_some f.not_in_zone)
          && (not (is_some f.near_human)
              && (not (is_some f.not_near_human)
                  && (not (is_some f.near) && not (is_some f.role)))))

  unfoldable pub when_is_empty : SemanticWhen F → Bool
  when_is_empty (when f alls anys) = no_flat f && (no_whens alls && no_whens anys)

  abbrev pub dist_of : Option (NearSpec F) → Option F.F64
  dist_of none = none
  dist_of (some n) = some n.dist

  abbrev pub bad_zone : Map Str (Zone F) → Option Str → Bool
  bad_zone zones none = false
  bad_zone zones (some z) = not (is_some (lookup z zones))

  -- The loops over the distances and over the zones of one `when`.
  unfoldable pub check_flat : Flat F → Map Str (Zone F) → Str → Outcome SemanticError (Unit {0})
  check_flat f zones path =
      if bad_distance F f.near_human
        || bad_distance F f.not_near_human
        || bad_distance F (dist_of f.near)
      then err (with_path (error invalid_distance) path)
      else if bad_zone zones f.in_zone || bad_zone zones f.not_in_zone
      then err (with_path (error unknown_zone) path)
      else ok tt

  abbrev pub zone_is : Str → Predicate F
  zone_is z = comparison Op.eq (Operand.prim zone) (Operand.str z)

  abbrev pub distance : Op → PrimitiveRef → F.F64 → Predicate F
  distance op p d = comparison op (Operand.prim p) (Operand.float d)

  unfoldable pub push_leaf :
      Str → Str → Option (Predicate F) → EvalMode → Outcome SemanticError (List (Trigger F))
  push_leaf robot_id resource none mode = ok []
  push_leaf robot_id resource (some p) mode = do
    topic ← robot_local robot_id resource
    ok (record { topic = topic.text; pred = some p; mode = mode } ∷ [])

  unfoldable pub leaf_triggers : Flat F → Str → Outcome SemanticError (List (Trigger F))
  leaf_triggers f robot_id = do
    a ← push_leaf robot_id (codes "zone") (option_map zone_is f.in_zone) edge
    b ←
        push_leaf robot_id (codes "zone")
          (option_map (λ z. Predicate.not (zone_is z)) f.not_in_zone) edge
    c ←
        push_leaf robot_id (codes "human_present")
          (option_map (distance Op.lt human_presence) f.near_human) level
    d ←
        push_leaf robot_id (codes "human_present")
          (option_map (distance Op.ge human_presence) f.not_near_human) level
    e ←
        push_leaf robot_id (codes "proximity")
          (option_map (λ n. distance Op.lt (proximity n.entity) n.dist) f.near) level
    g ←
        push_leaf robot_id (codes "role")
          (option_map (λ r. comparison Op.eq (Operand.prim robot) (Operand.str r)) f.role) edge
    ok (a ++ (b ++ (c ++ (d ++ (e ++ g)))))

  unfoldable pub leaves_then : List (Trigger F) → Exprs F → Exprs F
  leaves_then [] es = es
  leaves_then (t ∷ ts) es = Exprs.cons (leaf t) (leaves_then ts es)

  unfoldable pub push_end : Exprs F → WhenExpr F → Exprs F
  push_end Exprs.nil e = Exprs.cons e Exprs.nil
  push_end (Exprs.cons x es) e = Exprs.cons x (push_end es e)

  -- The final match on the parts under AND and the group under OR.
  unfoldable pub combine : Exprs F → Exprs F → Outcome SemanticError (WhenExpr F)
  combine Exprs.nil Exprs.nil = panic
  combine Exprs.nil (Exprs.cons x xs) = ok (any (Exprs.cons x xs))
  combine (Exprs.cons e Exprs.nil) Exprs.nil = ok e
  combine (Exprs.cons e (Exprs.cons f es)) Exprs.nil = ok (all (Exprs.cons e (Exprs.cons f es)))
  combine (Exprs.cons e es) (Exprs.cons x xs) =
      ok (all (push_end (Exprs.cons e es) (any (Exprs.cons x xs))))

  unfoldable mutual
    pub build_when_expr :
        SemanticWhen F → Str → Map Str (Zone F) → Str → Outcome SemanticError (WhenExpr F)
    build_when_expr (when f alls anys) robot_id zones path =
        let all_built = build_children alls robot_id zones path (codes ".all") 0 in
        let any_built = build_children anys robot_id zones path (codes ".any") 0 in
        if no_flat f && (no_whens alls && no_whens anys)
        then err (with_path (error empty_when) path)
        else (do
          check_flat f zones path
          leaves ← leaf_triggers f robot_id
          all_children ← all_built
          any_children ← any_built
          combine (leaves_then leaves all_children) any_children)

    pub build_children :
        Whens F → Str → Map Str (Zone F) → Str → Str → ℕ → Outcome SemanticError (Exprs F)
    build_children Whens.nil robot_id zones path word idx = ok Exprs.nil
    build_children (Whens.cons w ws) robot_id zones path word idx = do
      child ← build_when_expr w robot_id zones (child_path path word idx)
      rest ← build_children ws robot_id zones path word (suc idx)
      ok (Exprs.cons child rest)
