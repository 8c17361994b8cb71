-- ===== src/Semantic/Compile.antt =====
-- src/semantic.rs: `validate`, `compile` and the ruleset envelope.
use flo.Base.{
  ℕ, suc, Bool, true, false, not, ◌&&◌, ◌||◌, Option, none, some, List, [], ◌∷◌, ◌++◌, Str, codes,
  show_ℕ, is_empty, ends_with, str_eq, all, leb, ltb, length, map, if◌then◌else◌, Outcome, ok, err,
  ◌>>=◌, ◌>>◌, map_err,
}
use flo.Rules.Floats.{Floats}
use flo.Rules.Model.{Action, Rule, Rules, Ruleset}
use flo.Semantic.Model.{
  ErrorCode, non_primitive_payload, missing_field, invalid_ruleset_name, SemanticError, error,
  with_path, SemanticAction, SemanticRule, RulesManifest, SemanticRuleset, SemanticRulesetRule,
}
use flo.Semantic.Action.{try_from_action, compile_action_from_spec}
use flo.Semantic.When.{build_when_expr}
use flo.Semantic.Lower.{lower}

abbrev pub rule_path : ℕ → Str
rule_path idx = codes "rules[" ++ (show_ℕ idx ++ codes "]")

abbrev pub when_path : ℕ → Str
when_path idx = rule_path idx ++ codes ".when"

abbrev pub action_path : ℕ → ℕ → Str
action_path rule_idx action_idx =
    rule_path rule_idx ++ (codes ".actions[" ++ (show_ℕ action_idx ++ codes "]"))

-- The first closure on an action's error, the same in `validate` and in `compile`.
unfoldable pub place : Str → SemanticError → SemanticError
place path e = elim e.field_path [
  | none ↦ with_path e path
  | some inner ↦
      if str_eq inner (codes "payload")
      then with_path e (path ++ codes ".payload")
      else with_path e path
]

is_payload_error : ErrorCode → Bool
is_payload_error non_primitive_payload = true
is_payload_error _ = false

abbrev path_or_empty : Option Str → Str
path_or_empty none = []
path_or_empty (some p) = p

-- The second closure of `validate`.
unfoldable pub place_payload : Str → SemanticError → SemanticError
unfolding is_payload_error
place_payload path e =
    if is_payload_error e.code && not (ends_with (codes ".payload") (path_or_empty e.field_path))
    then with_path e (path ++ codes ".payload")
    else e

-- A text of `[a-z0-9-]{1,64}`.
abbrev pub is_name_char : ℕ → Bool
is_name_char c = leb b'a' c && leb c b'z' || leb b'0' c && leb c b'9' || leb c b'-' && leb b'-' c

abbrev pub is_bad_name : Str → Bool
is_bad_name name = not (all is_name_char name) || is_empty name || ltb 64 (length name)

-- `to_lowercase` of the standard library follows Unicode; it is an argument.
unfoldable pub normalize_ruleset_name : (Str → Str) → Str → Outcome SemanticError Str
normalize_ruleset_name to_lowercase name =
    if is_bad_name (to_lowercase name)
    then err (with_path (error invalid_ruleset_name) (codes "ruleset_name"))
    else ok (to_lowercase name)

abbrev pub require_site : Str → Outcome SemanticError (Unit {0})
require_site id =
    if is_empty id then err (with_path (error missing_field) (codes "site.id")) else ok tt

module _ {F : Floats} where
  unfoldable pub validate_actions :
      List (SemanticAction F) → ℕ → ℕ → Outcome SemanticError (Unit {0})
  unfolding place_payload place
  validate_actions [] rule_idx action_idx = ok tt
  validate_actions (a ∷ actions) rule_idx action_idx = do
    map_err (place_payload (action_path rule_idx action_idx))
        (map_err (place (action_path rule_idx action_idx)) (try_from_action a))
    validate_actions actions rule_idx (suc action_idx)

  unfoldable pub validate_rules :
      List (SemanticRule F) → RulesManifest F → ℕ → Outcome SemanticError (Unit {0})
  validate_rules [] doc idx = ok tt
  validate_rules (rule ∷ rules) doc idx = do
    validate_actions rule.actions idx 0
    build_when_expr rule.when (codes "validation") doc.zones (when_path idx)
    validate_rules rules doc (suc idx)

  unfoldable pub validate : RulesManifest F → Outcome SemanticError (Unit {0})
  unfolding validate_rules
  validate doc = validate_rules doc.rules doc 0

  unfoldable pub compile_actions :
      List (SemanticAction F) → Str → ℕ → ℕ → Outcome SemanticError (List (Action F))
  unfolding place
  compile_actions [] robot_id rule_idx action_idx = ok []
  compile_actions (a ∷ actions) robot_id rule_idx action_idx = do
    spec ← map_err (place (action_path rule_idx action_idx)) (try_from_action a)
    action ← compile_action_from_spec spec a robot_id
    rest ← compile_actions actions robot_id rule_idx (suc action_idx)
    ok (action ∷ rest)

  unfoldable pub compile_rules :
      List (SemanticRule F) → RulesManifest F → Str → ℕ → Outcome SemanticError (List (Rule F))
  compile_rules [] doc robot_id idx = ok []
  compile_rules (rule ∷ rules) doc robot_id idx = do
    expr ← build_when_expr rule.when robot_id doc.zones (when_path idx)
    when ← lower expr (when_path idx)
    actions ← compile_actions rule.actions robot_id idx 0
    rest ← compile_rules rules doc robot_id (suc idx)
    ok (record { name = rule.name; when = when; actions = actions } ∷ rest)

  unfoldable pub compile : RulesManifest F → Str → Outcome SemanticError (Rules F)
  compile doc robot_id = do
    validate doc
    require_site doc.site.id
    rules ← compile_rules doc.rules doc robot_id 0
    ok (record { rules = rules })

  abbrev pub desugar_rule : SemanticRulesetRule F → SemanticRule F
  desugar_rule r = record { name = r.rule_name; when = r.when; actions = r.actions }

  abbrev pub desugar : SemanticRuleset F → RulesManifest F
  desugar doc = record { site = doc.site; zones = doc.zones; rules = map desugar_rule doc.rules }

  unfoldable pub compile_ruleset :
      (Str → Str) → SemanticRuleset F → Str → Outcome SemanticError (Ruleset F)
  unfolding normalize_ruleset_name
  compile_ruleset to_lowercase doc robot_id = do
    ruleset_name ← normalize_ruleset_name to_lowercase doc.ruleset_name
    rules ← compile (desugar doc) robot_id
    ok (record {
      ruleset_name = ruleset_name;
      version = doc.version;
      robot_owner = doc.robot_owner;
      rules = rules.rules;
    })
