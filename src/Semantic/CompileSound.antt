-- ===== src/Semantic/CompileSound.antt =====
-- src/semantic.rs: what a successful compilation has produced.
use flo.Base.{
  ℕ, suc, ◌≡◌, refl, ap, ◌∙◌, Bool, List, [], ◌∷◌, ◌++◌, Str, codes, Lacks, All, length, Outcome,
  ok, err, panic, expect, map_err, map_err-ok, >>=-eq-ok, ok-injective,
}
use flo.Rules.Floats.{Floats}
use flo.Rules.Model.{Action, Trigger, Rule, Rules}
use flo.Topic.Name
use flo.Topic.Name.{Topic}
use flo.Topic.Builders.{robot_local, stop_cmd}
use flo.Topic.Stable.{try_new_idem}
use flo.Engine.Levels.{guard_holds}
use flo.Semantic.Model.{
  SemanticError, SemanticAction, SemanticRule, RulesManifest, ActionSpec, estop, slow_to, resume,
  raw,
}
use flo.Semantic.Action.{try_from_action, compile_action_from_spec}
use flo.Semantic.When.{build_when_expr}
use flo.Semantic.Lower.{lower}
use flo.Semantic.Meaning.{meaning}
use flo.Semantic.LowerSound.{lower_sound}
use flo.Semantic.BuildSound.{build_sound}
use flo.Semantic.Compile.{
  when_path, compile_actions, compile_rules, compile, validate, require_site,
}

-- The text of a topic that validation accepts as it stands.
abbrev pub IsTopic : Str → Type 0
IsTopic s = Name.try_new s ≡ ok (record { text = s })

expect-ok {ℓ κ μ} :
    {E : Type ℓ} {E' : Type κ} {A : Type μ} (m : Outcome E A) {a : A}
    → expect {E = E} {F = E'} m ≡ ok a
    → m ≡ ok a
expect-ok (ok a) h = cc
expect-ok (err e) h = cc
expect-ok panic h = cc

robot_local-IsTopic :
    (id resource : Str) (t : Topic)
    → robot_local {E = SemanticError} id resource ≡ ok t
    → IsTopic t.text
unfolding robot_local
robot_local-IsTopic id resource t h =
    try_new_idem (codes "robot/" ++ (id ++ (codes "/local/" ++ resource))) t
      (expect-ok (Name.try_new (codes "robot/" ++ (id ++ (codes "/local/" ++ resource)))) h)

stop-IsTopic : (id : Str) (t : Topic) → stop_cmd {E = SemanticError} id ≡ ok t → IsTopic t.text
unfolding stop_cmd
stop-IsTopic id t h =
    try_new_idem (codes "stop/" ++ (id ++ codes "/cmd")) t
      (expect-ok (Name.try_new (codes "stop/" ++ (id ++ codes "/cmd"))) h)

module _ {F : Floats} where
  action-IsTopic :
      (spec : ActionSpec F) (a : SemanticAction F) (id : Str) (action : Action F)
      → compile_action_from_spec spec a id ≡ ok action
      → IsTopic action.topic
  unfolding compile_action_from_spec
  action-IsTopic estop a id action h =
      let (t, e, k) = >>=-eq-ok (stop_cmd (codes "fleet")) _ h in
      rw (← ok-injective k) (stop-IsTopic (codes "fleet") t e)
  action-IsTopic resume a id action h =
      let (t, e, k) = >>=-eq-ok (robot_local id (codes "drive")) _ h in
      rw (← ok-injective k) (robot_local-IsTopic id (codes "drive") t e)
  action-IsTopic (slow_to v) a id action h =
      let (t, e, k) = >>=-eq-ok (robot_local id (codes "drive")) _ h in
      rw (← ok-injective k) (robot_local-IsTopic id (codes "drive") t e)
  action-IsTopic (raw topic payload) a id action h =
      let (t, e, k) = >>=-eq-ok (map_err _ (Name.try_new topic)) _ h in
      rw (← ok-injective k) (try_new_idem topic t (map_err-ok _ (Name.try_new topic) e))

  actions_lem :
      (list : List (SemanticAction F)) (id : Str) (r i : ℕ) (actions : List (Action F))
      → compile_actions list id r i ≡ ok actions
      → (length actions ≡ length list) × All (λ a. IsTopic a.topic) actions
  unfolding compile_actions
  actions_lem [] id r i actions h = rw (← ok-injective h) (refl, tt)
  actions_lem (a ∷ list) id r i actions h =
      let (spec, e1, k1) = >>=-eq-ok (map_err _ (try_from_action a)) _ h in
      let (action, e2, k2) = >>=-eq-ok (compile_action_from_spec spec a id) _ k1 in
      let (rest, e3, k3) = >>=-eq-ok (compile_actions list id r (suc i)) _ k2 in
      let (same, topics) = actions_lem list id r (suc i) rest e3 in
      rw (← ok-injective k3) (ap suc same, (action-IsTopic spec a id action e2, topics))

  -- A compiled rule has the name of its source, one action for each, on topics that validation
  -- accepts, and a guard that holds exactly when the condition does.
  abbrev pub IsCompiled : Str → SemanticRule F → Rule F → Type 0
  IsCompiled id source rule =
      (rule.name ≡ source.name)
      × (length rule.actions ≡ length source.actions)
      × All (λ a. IsTopic a.topic) rule.actions
      × ((sat : Trigger F → Bool) → guard_holds sat rule.when ≡ meaning sat id source.when)

  abbrev pub AreCompiled : Str → List (SemanticRule F) → List (Rule F) → Type 0
  AreCompiled id [] [] = Unit
  AreCompiled id (source ∷ sources) (rule ∷ rules) =
      IsCompiled id source rule × AreCompiled id sources rules
  AreCompiled id [] (rule ∷ rules) = ⊥
  AreCompiled id (source ∷ sources) [] = ⊥

  rules_lem :
      (sources : List (SemanticRule F)) (doc : RulesManifest F) (id : Str) (idx : ℕ)
      (rules : List (Rule F))
      → Lacks b'/' id
      → compile_rules sources doc id idx ≡ ok rules
      → AreCompiled id sources rules
  unfolding compile_rules
  rules_lem [] doc id idx rules plain h = rw (← ok-injective h) tt
  rules_lem (source ∷ sources) doc id idx rules plain h =
      let (expr, e1, k1) =
        >>=-eq-ok (build_when_expr source.when id doc.zones (when_path idx)) _ h in
      let (when, e2, k2) = >>=-eq-ok (lower expr (when_path idx)) _ k1 in
      let (actions, e3, k3) = >>=-eq-ok (compile_actions source.actions id idx 0) _ k2 in
      let (rest, e4, k4) = >>=-eq-ok (compile_rules sources doc id (suc idx)) _ k3 in
      let (same, topics) = actions_lem source.actions id idx 0 actions e3 in
      rw (← ok-injective k4) (
        (
          refl,
          same,
          topics,
          λ sat.
              let (full, means) =
                build_sound sat source.when id doc.zones (when_path idx) expr plain e1 in
              lower_sound sat expr (when_path idx) when full e2 ∙ means,
        ),
        rules_lem sources doc id (suc idx) rest plain e4,
      )

  -- When a document compiles for a robot whose id has no slash, there is one engine rule for each
  -- semantic rule, in order: with its name, with one action for each of its actions, all on topics
  -- that validation accepts as they stand, and with a guard that, for every assignment of truth to
  -- the triggers, holds exactly when the condition of the semantic rule does.
  pub compile_sound :
      (doc : RulesManifest F) (id : Str) (rules : Rules F)
      → Lacks b'/' id
      → compile doc id ≡ ok rules
      → AreCompiled id doc.rules rules.rules
  unfolding compile
  compile_sound doc id rules plain h =
      let (_, _, k1) = >>=-eq-ok (validate doc) _ h in
      let (_, _, k2) = >>=-eq-ok (require_site doc.site.id) _ k1 in
      let (made, e, k3) = >>=-eq-ok (compile_rules doc.rules doc id 0) _ k2 in
      rw (← ok-injective k3) (rules_lem doc.rules doc id 0 made plain e)
