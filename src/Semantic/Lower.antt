-- ===== src/Semantic/Lower.antt =====
-- src/semantic.rs: `lower`, which flattens an expression to the engine's two-level guard.
use flo.Base.{
  ℕ, suc, not, ◌&&◌, List, [], ◌∷◌, ◌++◌, Str, codes, is_empty, length, nat_eq, if◌then◌else◌,
  Outcome, ok, err, ◌>>=◌,
}
use flo.Rules.Floats.{Floats}
use flo.Rules.Model.{Trigger, When}
use flo.Semantic.Model.{
  SemanticError, error, with_path, unrepresentable_nesting, WhenExpr, all, any, leaf, Exprs,
}
use flo.Semantic.When.{child_path}

abbrev pub unrepresentable : Str → SemanticError
unrepresentable path = with_path (error unrepresentable_nesting) path

module _ {F : Floats} where
  -- What an element of an OR group adds to it.
  unfoldable pub or_element : When F → Str → Outcome SemanticError (List (Trigger F))
  or_element w path =
      if not (is_empty w.all) && not (is_empty w.any)
      then err (unrepresentable path)
      else if is_empty w.any
      then (if not (nat_eq (length w.all) 1) then err (unrepresentable path) else ok w.all)
      else ok w.any

  -- The OR group after one more part of an AND.
  unfoldable pub and_group :
      List (Trigger F) → When F → Str → Outcome SemanticError (List (Trigger F))
  and_group group w path =
      if not (is_empty w.any)
      then (if not (is_empty group) then err (unrepresentable path) else ok w.any)
      else ok group

  unfoldable mutual
    pub lower : WhenExpr F → Str → Outcome SemanticError (When F)
    lower (leaf t) path = ok (record { all = t ∷ []; any = [] })
    lower (all children) path = lower_all children path 0 [] []
    lower (any children) path = lower_any children path 0 []

    pub lower_all :
        Exprs F → Str → ℕ → List (Trigger F) → List (Trigger F) → Outcome SemanticError (When F)
    lower_all Exprs.nil path idx triggers group = ok (record { all = triggers; any = group })
    lower_all (Exprs.cons child rest) path idx triggers group = do
      w ← lower child (child_path path (codes ".all") idx)
      group' ← and_group group w (child_path path (codes ".all") idx)
      lower_all rest path (suc idx) (triggers ++ w.all) group'

    pub lower_any : Exprs F → Str → ℕ → List (Trigger F) → Outcome SemanticError (When F)
    lower_any Exprs.nil path idx group = ok (record { all = []; any = group })
    lower_any (Exprs.cons child rest) path idx group = do
      w ← lower child (child_path path (codes ".any") idx)
      more ← or_element w (child_path path (codes ".any") idx)
      lower_any rest path (suc idx) (group ++ more)
