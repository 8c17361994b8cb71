-- ===== src/Semantic/LowerSound.antt =====
-- src/semantic.rs: lowering keeps the meaning of an expression.
use flo.Base.{
  ℕ, suc, ◌≡◌, refl, Bool, false, not, ◌&&◌, ◌||◌, List, [], ◌∷◌, ◌++◌, Str, codes, is_empty, all,
  any, all-append, any-append, ok, >>=-eq-ok, arith,
}
use flo.Rules.Floats.{Floats}
use flo.Rules.Model.{Trigger, When}
use flo.Engine.Levels.{guard_holds}
use flo.Semantic.Model.{WhenExpr, leaf, Exprs}
use flo.Semantic.When.{child_path}
use flo.Semantic.Lower.{or_element, and_group, lower, lower_all, lower_any}
use flo.Semantic.Meaning.{eval_expr, every_expr, some_expr, IsFull, AllFull, has_exprs}

module _ {F : Floats} (sat : Trigger F → Bool) where
  -- The two levels of a guard, with no test for the empty one.
  abbrev plain : List (Trigger F) → List (Trigger F) → Bool
  plain alls anys = all sat alls && (is_empty anys || any sat anys)

  abbrev IsSome : When F → Type 0
  IsSome w = (is_empty w.all && is_empty w.any) ≡ false

  is_empty-append {ℓ} :
      {A : Type ℓ} (xs ys : List A) → is_empty (xs ++ ys) ≡ (is_empty xs && is_empty ys)
  is_empty-append [] ys = refl
  is_empty-append (x ∷ xs) ys = refl

  and_group_lem :
      (group : List (Trigger F)) (w : When F) (path : Str) {group' : List (Trigger F)} (b : Bool)
      → and_group group w path ≡ ok group'
      → (plain w.all w.any ≡ b)
      → ((is_empty group' ≡ (is_empty group && is_empty w.any)))
        × ((all sat w.all && (is_empty group' || any sat group'))
            ≡ ((is_empty group || any sat group) && b))
  unfolding and_group
  and_group_lem group w path b h e = ground arith

  or_parts :
      (alls anys : List (Trigger F)) (path : Str) {more : List (Trigger F)}
      → or_element (record { all = alls; any = anys }) path ≡ ok more
      → (is_empty more ≡ false) × (any sat more ≡ plain alls anys)
  unfolding or_element
  or_parts [] [] path h = ground arith
  or_parts [] (u ∷ us) path h = ground arith
  or_parts (t ∷ []) [] path h = ground arith
  or_parts (t ∷ []) (u ∷ us) path h = ground arith
  or_parts (t ∷ v ∷ ts) [] path h = ground arith
  or_parts (t ∷ v ∷ ts) (u ∷ us) path h = ground arith

  or_element_lem :
      (w : When F) (path : Str) {more : List (Trigger F)}
      → or_element w path ≡ ok more
      → (is_empty more ≡ false) × (any sat more ≡ plain w.all w.any)
  or_element_lem w path h = or_parts w.all w.any path h

  mutual
    unfolding lower

    lower_lem :
        (e : WhenExpr F) (path : Str) (w : When F)
        → IsFull e
        → lower e path ≡ ok w
        → IsSome w × (plain w.all w.any ≡ eval_expr sat e)
    lower_lem (leaf t) path w full h = ground arith
    lower_lem (WhenExpr.all es) path w full h =
        let (nonempty, same) = lower_all_lem es path 0 [] [] w full.1 h in
        (ground (arith, nonempty, full.0), ground (arith, same))
    lower_lem (WhenExpr.any es) path w full h =
        let (no_all, nonempty, same) = lower_any_lem es path 0 [] w full.1 h in
        (ground (arith, nonempty, full.0), ground (arith, no_all, nonempty, same, full.0))

    lower_all_lem :
        (es : Exprs F) (path : Str) (idx : ℕ) (triggers group : List (Trigger F)) (w : When F)
        → AllFull es
        → lower_all es path idx triggers group ≡ ok w
        → ((is_empty w.all && is_empty w.any)
            ≡ (is_empty triggers && is_empty group && not (has_exprs es)))
          × (plain w.all w.any ≡ (plain triggers group && every_expr sat es))
    lower_all_lem Exprs.nil path idx triggers group w full h = ground arith
    lower_all_lem (Exprs.cons e es) path idx triggers group w full h =
        let (w1, e1, k1) = >>=-eq-ok (lower e (child_path path (codes ".all") idx)) _ h in
        let (group', e2, k2) =
          >>=-eq-ok (and_group group w1 (child_path path (codes ".all") idx)) _ k1 in
        let (some1, same1) = lower_lem e (child_path path (codes ".all") idx) w1 full.0 e1 in
        let (empty2, same2) =
          and_group_lem group w1 (child_path path (codes ".all") idx) (eval_expr sat e) e2 same1 in
        let (some3, same3) =
          lower_all_lem es path (suc idx) (triggers ++ w1.all) group' w full.1 k2 in
        ground (
          arith,
          some1,
          empty2,
          same2,
          some3,
          same3,
          is_empty-append triggers w1.all,
          all-append sat triggers w1.all,
        )

    lower_any_lem :
        (es : Exprs F) (path : Str) (idx : ℕ) (group : List (Trigger F)) (w : When F)
        → AllFull es
        → lower_any es path idx group ≡ ok w
        → (w.all ≡ [])
          × (is_empty w.any ≡ (is_empty group && not (has_exprs es)))
          × (any sat w.any ≡ (any sat group || some_expr sat es))
    lower_any_lem Exprs.nil path idx group w full h = ground arith
    lower_any_lem (Exprs.cons e es) path idx group w full h =
        let (w1, e1, k1) = >>=-eq-ok (lower e (child_path path (codes ".any") idx)) _ h in
        let (more, e2, k2) = >>=-eq-ok (or_element w1 (child_path path (codes ".any") idx)) _ k1 in
        let (some1, same1) = lower_lem e (child_path path (codes ".any") idx) w1 full.0 e1 in
        let (some2, same2) = or_element_lem w1 (child_path path (codes ".any") idx) e2 in
        let (no_all, some3, same3) = lower_any_lem es path (suc idx) (group ++ more) w full.1 k2 in
        (
          no_all,
          ground (arith, some3, some2, is_empty-append group more),
          ground (arith, same3, same2, same1, any-append sat group more),
        )

  -- When an expression with no empty group is lowered, the guard of the engine holds exactly when
  -- the expression is true, for every assignment of truth to the triggers.
  pub lower_sound :
      (e : WhenExpr F) (path : Str) (w : When F)
      → IsFull e
      → lower e path ≡ ok w
      → guard_holds sat w ≡ eval_expr sat e
  lower_sound e path w full h =
      let (nonempty, same) = lower_lem e path w full h in ground (arith, nonempty, same)
