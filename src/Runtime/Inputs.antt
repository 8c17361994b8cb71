-- ===== src/Runtime/Inputs.antt =====
-- src/runtime.rs: `build_auth` and `load_inputs`. The file system, the TOML parsers and the text of
-- the built-in rules are parameters.
use flo.Base.{
  ℕ, Bool, true, false, Option, none, some, is_some, Str, codes, Outcome, ok, err, panic, ◌>>=◌,
  ◌>>◌, unwrap,
}
use flo.Rules.Floats.{Floats}
use flo.Rules.Model.{Rules}
use flo.Semantic.Model.{RulesManifest, SemanticError}
use flo.Semantic.Compile.{compile}
use flo.Config.Client.{ClientConfig}
use flo.Config.HotReload.{ActiveRules}
use flo.Config.Bootstrap.{bootstrap, bootstrap_demo, client_from_toml}
use flo.Auth.Mode.{AuthError, AuthConfig, AuthMode, parse}
use flo.Auth.Credentials.{Files, validate_production}
use flo.Cli.Args.{Args}

abbrev pub auth_of : Args → AuthMode → AuthConfig
auth_of args mode = record {
  mode = mode;
  allow_insecure = args.auth_allow_insecure;
  cert = args.auth_cert;
  key = args.auth_key;
  trust = args.auth_trust;
}

unfoldable pub build_auth : Files → Args → Outcome AuthError AuthConfig
unfolding parse validate_production
build_auth files args = do
  mode ← parse args.auth_mode
  validate_production files (auth_of args mode)
  ok (auth_of args mode)

-- The parsers and the printer of TOML, which fail with `none`, and the built-in rules.
pub record Toml (F : Floats) : Type 0 where
  pub parse_client : Str → Option ClientConfig
  pub parse_rules : Str → Option (Rules F)
  pub parse_semantic : Str → Option (RulesManifest F)
  pub print_rules : Rules F → Option Str
  pub demo : Str

abbrev pub empty_rules : Str
empty_rules = codes "rules = []\n"

pub record Inputs (F : Floats) : Type 0 where
  pub client_config : Option ClientConfig
  pub store : ActiveRules F

-- `ptr` is the identity of the store's fresh `Arc`.
module _ {ℓ} {E : Type ℓ} {F : Floats} (files : Files) (toml : Toml F) (ptr : ℕ) where
  abbrev pub config_of : Outcome Str ClientConfig → Outcome E (Option ClientConfig)
  config_of (ok cfg) = ok (some cfg)
  config_of (err e) = ok none
  config_of panic = panic

  abbrev pub load_text : Option Str → Outcome E (Option ClientConfig)
  load_text none = ok none
  load_text (some text) = config_of (client_from_toml toml.parse_client text)

  abbrev pub load_config : Option Str → Outcome E (Option ClientConfig)
  load_config none = ok none
  load_config (some path) = load_text (files.read_to_string path)

  unfoldable pub fail_safe_store : Outcome E (ActiveRules F)
  unfolding bootstrap
  fail_safe_store = unwrap (bootstrap toml.parse_rules ptr empty_rules)

  abbrev pub or_fail_safe : Option (ActiveRules F) → Outcome E (ActiveRules F)
  or_fail_safe none = fail_safe_store
  or_fail_safe (some s) = ok s

  -- The raw reading, where the semantic one has failed.
  abbrev pub raw_or_default : Str → Outcome E (ActiveRules F)
  raw_or_default text = or_fail_safe (bootstrap toml.parse_rules ptr text)

  abbrev pub or_raw : Str → Option (ActiveRules F) → Outcome E (ActiveRules F)
  or_raw text none = raw_or_default text
  or_raw text (some s) = ok s

  -- `to_toml` panics if the rules cannot be printed.
  abbrev pub printed : Str → Option Str → Outcome E (ActiveRules F)
  printed text none = panic
  printed text (some print) = or_raw text (bootstrap toml.parse_rules ptr print)

  abbrev pub compiled : Str → Outcome SemanticError (Rules F) → Outcome E (ActiveRules F)
  compiled text (ok rules) = printed text (toml.print_rules rules)
  compiled text (err e) = raw_or_default text
  compiled text panic = panic

  abbrev pub by_document : Str → Str → Option (RulesManifest F) → Outcome E (ActiveRules F)
  by_document text robot_id none = raw_or_default text
  by_document text robot_id (some doc) = compiled text (compile doc robot_id)

  unfoldable pub compile_rules_or_default : Str → Str → Outcome E (ActiveRules F)
  unfolding bootstrap fail_safe_store
  compile_rules_or_default text robot_id = by_document text robot_id (toml.parse_semantic text)

  abbrev pub load_ruleset : Option Str → Str → Outcome E (ActiveRules F)
  load_ruleset none robot_id = fail_safe_store
  load_ruleset (some text) robot_id = compile_rules_or_default text robot_id

  abbrev pub load_store : Option Str → Bool → Str → Outcome E (ActiveRules F)
  load_store (some path) has_config robot_id = load_ruleset (files.read_to_string path) robot_id
  load_store none true robot_id = bootstrap_demo toml.parse_rules toml.demo ptr robot_id
  load_store none false robot_id = fail_safe_store

  unfoldable pub load_inputs : Args → Str → Outcome E (Inputs F)
  unfolding compile_rules_or_default fail_safe_store
  load_inputs args robot_id = do
    client_config ← load_config args.config
    store ← load_store args.ruleset_path (is_some client_config) robot_id
    ok (record { client_config = client_config; store = store })
