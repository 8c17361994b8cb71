-- ===== src/Semantic/BuildSound.antt =====
-- src/semantic.rs: the expression that `build_when_expr` makes, and which conditions it accepts.
use flo.Base.{
  ℕ, suc, ◌≡◌, refl, ap, Bool, true, not, ◌&&◌, ◌||◌, List, [], ◌∷◌, Str, codes, Map, Lacks, all,
  ok, >>=-eq-ok, ok-injective, sym, ◌∙◌, arith, Bool-cases, inl, inr,
}
use flo.Rules.Floats.{Floats}
use flo.Rules.Model.{Trigger}
use flo.Semantic.Model.{Zone, SemanticWhen, when, Whens, WhenExpr, Exprs}
use flo.Semantic.When.{
  child_path, no_whens, no_flat, check_flat, leaf_triggers, leaves_then, push_end, combine,
  build_when_expr, build_children,
}
use flo.Semantic.Meaning.{
  flat_triggers, meaning, every_meaning, some_meaning, eval_expr, every_expr, some_expr, has_exprs,
  IsFull, AllFull, leaf_triggers_lem,
}

module _ {F : Floats} (sat : Trigger F → Bool) where
  leaves_then_lem :
      (ts : List (Trigger F)) (es : Exprs F)
      → AllFull es
      → AllFull (leaves_then ts es)
        × (every_expr sat (leaves_then ts es) ≡ (all sat ts && every_expr sat es))
  unfolding leaves_then
  leaves_then_lem [] es h = (h, refl)
  leaves_then_lem (t ∷ ts) es h =
      let (full, same) = leaves_then_lem ts es h in ((tt, full), ground (arith, same))

  push_end_lem :
      (es : Exprs F) (e : WhenExpr F)
      → AllFull es
      → IsFull e
      → (has_exprs (push_end es e) ≡ true)
        × AllFull (push_end es e)
        × (every_expr sat (push_end es e) ≡ (every_expr sat es && eval_expr sat e))
  unfolding push_end
  push_end_lem Exprs.nil e h k = (refl, (k, tt), ground arith)
  push_end_lem (Exprs.cons x es) e h k =
      let (some_part, full, same) = push_end_lem es e h.1 k in
      (refl, (h.0, full), ground (arith, same))

  combine_lem :
      (ands ors : Exprs F) {e : WhenExpr F}
      → AllFull ands
      → AllFull ors
      → combine ands ors ≡ ok e
      → IsFull e
        × (eval_expr sat e ≡ (every_expr sat ands && (not (has_exprs ors) || some_expr sat ors)))
  unfolding combine
  combine_lem Exprs.nil Exprs.nil h k c = cc
  combine_lem Exprs.nil (Exprs.cons x xs) h k c = ground (arith, c)
  combine_lem (Exprs.cons a Exprs.nil) Exprs.nil h k c = rw (← ok-injective c) (h.0, ground arith)
  combine_lem (Exprs.cons a (Exprs.cons b es)) Exprs.nil h k c =
      rw (← ok-injective c) ((refl, h), ground arith)
  combine_lem (Exprs.cons a es) (Exprs.cons x xs) h k c =
      let (some_part, full, same) =
        push_end_lem (Exprs.cons a es) (WhenExpr.any (Exprs.cons x xs)) h (refl, k) in
      rw (← ok-injective c) ((some_part, full), ground (arith, same))

  mutual
    unfolding build_when_expr

    build_lem :
        (sw : SemanticWhen F) (id : Str) (zones : Map Str (Zone F)) (path : Str) (e : WhenExpr F)
        → Lacks b'/' id
        → build_when_expr sw id zones path ≡ ok e
        → IsFull e × (eval_expr sat e ≡ meaning sat id sw)
    build_lem (when f alls anys) id zones path e plain h =
        elim (Bool-cases (no_flat f && (no_whens alls && no_whens anys))) [
          | inl t ↦ absurd (ground (arith, t))
          | inr t ↦
              let k = rw t at h in
              let (_, _, k1) = >>=-eq-ok (check_flat f zones path) _ k in
              let (leaves, l, k2) = >>=-eq-ok (leaf_triggers f id) _ k1 in
              let (ands, a, k3) =
                >>=-eq-ok (build_children alls id zones path (codes ".all") 0) _ k2 in
              let (ors, o, k4) =
                >>=-eq-ok (build_children anys id zones path (codes ".any") 0) _ k3 in
              let (full_a, every_a, some_a, has_a) =
                children_lem alls id zones path (codes ".all") 0 ands plain a in
              let (full_o, every_o, some_o, has_o) =
                children_lem anys id zones path (codes ".any") 0 ors plain o in
              let (full_l, every_l) = leaves_then_lem leaves ands full_a in
              let (full, same) = combine_lem (leaves_then leaves ands) ors full_l full_o k4 in
              let flat : leaves ≡ flat_triggers f id =
                ok-injective (sym l ∙ leaf_triggers_lem f id plain) in
              (full, ground (arith, same, every_l, every_a, some_o, has_o, ap (all sat) flat))
        ]

    children_lem :
        (ws : Whens F) (id : Str) (zones : Map Str (Zone F)) (path word : Str) (idx : ℕ)
        (es : Exprs F)
        → Lacks b'/' id
        → build_children ws id zones path word idx ≡ ok es
        → AllFull es
          × (every_expr sat es ≡ every_meaning sat id ws)
          × (some_expr sat es ≡ some_meaning sat id ws)
          × (has_exprs es ≡ not (no_whens ws))
    children_lem Whens.nil id zones path word idx es plain h =
        rw (← ok-injective h) (tt, refl, refl, refl)
    children_lem (Whens.cons w ws) id zones path word idx es plain h =
        let (e, b, k1) = >>=-eq-ok (build_when_expr w id zones (child_path path word idx)) _ h in
        let (rest, r, k2) = >>=-eq-ok (build_children ws id zones path word (suc idx)) _ k1 in
        let (full, same) = build_lem w id zones (child_path path word idx) e plain b in
        let (fulls, every_r, some_r, has_r) =
          children_lem ws id zones path word (suc idx) rest plain r in
        rw (← ok-injective k2)
          ((full, fulls), ground (arith, same, every_r), ground (arith, same, some_r), refl)

  -- Where the builder accepts a condition of a robot whose id has no slash, the expression has no
  -- empty group and means what the condition means.
  pub build_sound :
      (sw : SemanticWhen F) (id : Str) (zones : Map Str (Zone F)) (path : Str) (e : WhenExpr F)
      → Lacks b'/' id
      → build_when_expr sw id zones path ≡ ok e
      → IsFull e × (eval_expr sat e ≡ meaning sat id sw)
  build_sound sw id zones path e plain h = build_lem sw id zones path e plain h
