-- ===== src/Examples/NodeRuns.antt =====
-- src/auth.rs, src/runtime.rs, src/health.rs, src/config.rs and src/cli.rs: the theorems at one client.
use flo.Base.{
  ℕ, ◌≤◌, ◌≡◌, ◌⊎◌, ◌↔◌, refl, true, false, none, some, Option, List, [], ◌∷◌, Str, codes,
  starts_with, length, ok, err, panic, Outcome, member,
}
use flo.Rules.Model.{Rules}
use flo.Auth.Mode.{AuthMode, mtls}
use flo.Auth.Credentials.{validate_production}
use flo.Auth.Session.{tls_session, zenoh_config}
use flo.Auth.Accepted.{HasCredentials}
use flo.Auth.FailClosed.{IsScoped, zenoh_config_fail_closed}
use flo.Config.HotReload.{ActiveRules}
use flo.Runtime.Inputs.{Inputs, load_inputs, compile_rules_or_default}
use flo.Runtime.FailSafe.{IsSilent, load_inputs_fail_safe}
use flo.Runtime.Bootstrap.{Runtime, bootstrap, StartError}
use flo.Runtime.Started.{IsSafe, with_peers, IsRegistered, bootstrap_started}
use flo.Health.Gate.{is_ready}
use flo.Health.Probe.{probe}
use flo.Health.ProbeLaws.{IsVerdict, probe-ends}
use flo.Semantic.Format.{toml, json}
use flo.Cli.Rule.{check_text, all_guarded, valid}
use flo.Cli.RuleLaws.{sources, Loads, check_text_raw, check_text_json}
use flo.Examples.Data.{floats}
use flo.Examples.NodeData.{
  pem_files, mtls_auth, inserts, poor_toml, client_args, site, healthy, healthy_fits, raw_toml,
}
use flo.Health.Gate
use flo.Examples.SemanticRuns.{document}

abbrev scoped_session : List (Str × Str)
scoped_session = tls_session pem_files inserts (codes "c") (codes "k") (codes "t") (codes "{}")

zenoh_config_fail_closed_example :
    (mtls_auth.mode ≡ AuthMode.none)
    ⊎ ((mtls_auth.mode ≡ mtls)
        × HasCredentials pem_files mtls_auth
        × IsScoped pem_files inserts mtls_auth scoped_session (codes "r1"))
unfolding zenoh_config flo.Auth.Credentials.validate_pem_file flo.Base.str_eq flo.Base.contains_str
    flo.Auth.Session.acl_config flo.Topic.Builders.robot_namespace flo.Topic.Acl.try_new
    flo.Base.ends_with flo.Topic.Builders.rules_key flo.Topic.Name.try_new
    flo.Topic.Grammar.matches_one_of flo.Base.split flo.Topic.Grammar.canonicalize
zenoh_config_fail_closed_example =
    zenoh_config_fail_closed pem_files inserts mtls_auth (codes "r1") scoped_session refl

load_inputs_fail_safe_example :
    (inputs : Inputs floats) × (load_inputs {E = Unit {0}} pem_files poor_toml 0 client_args
        (codes "r1")
      ≡ ok inputs)
    × IsSilent inputs.store
unfolding flo.Base.str_eq
load_inputs_fail_safe_example =
    load_inputs_fail_safe pem_files poor_toml 0 refl client_args (codes "r1") (refl, tt)

probe-ends_example : IsVerdict healthy (probe healthy 512 (codes "0.0.0.0:8080"))
probe-ends_example = probe-ends healthy (codes "0.0.0.0:8080") healthy_fits

abbrev runtime : Runtime floats
runtime = record {
  transport = record { tokens = codes "robot/r1/client/liveliness" ∷ [] };
  store = record {
    inner = record { ptr = 0; rules = record { rules = [] } };
    watch = record { ptr = 0; rules = record { rules = [] } };
  };
  health = Gate.new;
}

bootstrap_started_example :
    ((z : site.zenoh.Config) × IsSafe site client_args 0 z
      × (site.opens (with_peers site client_args 0 z) ≡ true))
    × ((inputs : Inputs floats) × (load_inputs {E = StartError} pem_files poor_toml 0 client_args
            (codes "r1")
          ≡ ok inputs)
        × (runtime.store ≡ inputs.store)
        × IsRegistered site client_args 0 inputs.client_config)
    × (is_ready runtime.health ≡ false)
unfolding bootstrap flo.Auth.Credentials.validate_pem_file flo.Base.contains_str
    flo.Config.Bootstrap.client_from_toml flo.Config.Client.validate flo.Auth.Session.acl_config
    flo.Topic.Builders.robot_namespace flo.Topic.Acl.try_new flo.Base.ends_with
    flo.Topic.Builders.rules_key flo.Topic.Name.try_new flo.Topic.Grammar.matches_one_of
    flo.Base.split flo.Topic.Grammar.canonicalize flo.Topic.Builders.liveliness_key
bootstrap_started_example = bootstrap_started site client_args 0 runtime refl

check_text_raw_example :
    (rules : Rules floats) × (raw_toml.parse_rules (codes "rules") ≡ some rules)
    × (all_guarded rules ≡ true)
    × Loads pem_files raw_toml 0 (λ text. none) (codes "rules") (codes "r1") rules
unfolding flo.Semantic.Format.guess_format check_text flo.Topic.Name.try_new
    flo.Topic.Grammar.matches_one_of flo.Base.split flo.Topic.Grammar.canonicalize flo.Base.str_eq
check_text_raw_example =
    check_text_raw pem_files raw_toml 0 (λ text. none) (codes "rules") (codes "r1") refl refl

check_text_json_example :
    (check_text (sources pem_files poor_toml 0 (λ text. some document)) (codes " {}") ≡ ok valid)
    × ((store : ActiveRules floats) × (compile_rules_or_default {E = Unit {0}} pem_files poor_toml 0
            (codes " {}")
            (codes "r1")
          ≡ ok store)
        × IsSilent store)
unfolding flo.Base.str_eq flo.Semantic.Format.guess_format flo.Semantic.Compile.validate
    flo.Semantic.Compile.validate_actions flo.Semantic.Action.try_from_action
    flo.Semantic.When.build_when_expr flo.Semantic.When.check_flat flo.Semantic.When.leaf_triggers
    flo.Semantic.When.push_leaf flo.Topic.Builders.robot_local flo.Topic.Name.try_new
    flo.Topic.Grammar.matches_one_of flo.Base.split flo.Topic.Grammar.canonicalize flo.Base.lookup
    flo.Semantic.When.combine flo.Semantic.When.leaves_then flo.Semantic.Compile.validate_rules
    flo.Base.strip_prefix flo.Semantic.Compile.place flo.Semantic.When.push_end
check_text_json_example =
    check_text_json pem_files poor_toml 0 (λ text. some document) (codes " {}") (codes "r1")
      document refl refl refl refl refl refl
