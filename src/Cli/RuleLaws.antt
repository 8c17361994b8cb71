-- ===== src/Cli/RuleLaws.antt =====
-- src/cli.rs with src/runtime.rs: what a verdict of `rule check` says of the client that gets the file.
use flo.Base.{
  ℕ, ◌≡◌, refl, true, Option, none, some, [], Str, arith, inl, inr, ◌⊎◌, ok, err, Option-cases,
  Outcome-cases,
}
use flo.Rules.Floats.{Floats}
use flo.Rules.Model.{Rules}
use flo.Semantic.Model.{RulesManifest, SemanticError}
use flo.Semantic.Compile.{validate, compile}
use flo.Semantic.Format.{json, toml, guess_format, parse_semantic_auto}
use flo.Config.HotReload.{ActiveRules}
use flo.Config.Bootstrap.{bootstrap}
use flo.Auth.Credentials.{Files}
use flo.Runtime.Inputs.{Toml, compile_rules_or_default, raw_or_default, empty_rules}
use flo.Runtime.FailSafe.{IsSilent, silent_store, silent_lem, text_lem}
use flo.Cli.Rule.{valid, valid_raw, Sources, all_guarded, check_text}

module _ {F : Floats} (files : Files) (client : Toml F) (ptr : ℕ)
    (from_json : Str → Option (RulesManifest F)) where
  -- The command reads with the parsers of the client.
  abbrev pub sources : Sources F
  sources = record {
    read_to_string = files.read_to_string;
    from_json = from_json;
    from_toml = client.parse_semantic;
    parse_rules = client.parse_rules;
  }

  -- The client runs just these rules.
  abbrev pub Loads : Str → Str → Rules F → Type 0
  Loads text robot_id rules =
      (store : ActiveRules F) × (compile_rules_or_default {E = Unit {0}} files client ptr text
          robot_id
        ≡ ok store)
      × (store.inner.rules ≡ rules)

  raw-Loads :
      (text robot_id : Str) (rules : Rules F)
      → client.parse_rules text ≡ some rules
      → compile_rules_or_default {E = Unit {0}} files client ptr text robot_id
        ≡ raw_or_default {E = Unit {0}} files client ptr text
      → Loads text robot_id rules
  unfolding bootstrap flo.Config.Bootstrap.new
  raw-Loads text robot_id rules k h = (
    record {
      inner = record { ptr = ptr; rules = rules };
      watch = record { ptr = ptr; rules = rules };
    },
    rw (h, bootstrap, k) refl,
    refl,
  )

  compile-err :
      (doc : RulesManifest F) (robot_id : Str) (e : SemanticError)
      → validate doc ≡ err e
      → compile doc robot_id ≡ err e
  unfolding compile
  compile-err doc robot_id e h = rw (compile, h) refl

  -- A TOML file that the command accepts as a raw ruleset is loaded by the client, under every robot id,
  -- as the very rules that were checked, none of them without a guard.
  pub check_text_raw :
      (text robot_id : Str)
      → guess_format text ≡ toml
      → check_text sources text ≡ ok valid_raw
      → (rules : Rules F) × (client.parse_rules text ≡ some rules)
        × (all_guarded rules ≡ true)
        × Loads text robot_id rules
  unfolding check_text parse_semantic_auto compile_rules_or_default
  check_text_raw text robot_id format h = elim (Option-cases (client.parse_rules text)) [
    | inl k ↦ absurd (no_rules (Option-cases (client.parse_semantic text)) k)
    | inr (rules, k) ↦ (
      rules,
      k,
      guarded rules (Option-cases (client.parse_semantic text)) k,
      raw-Loads text robot_id rules k (falls (Option-cases (client.parse_semantic text))),
    )
  ]
    where
      Cases : Type 0
      Cases =
          (client.parse_semantic text ≡ none)
          ⊎ ((doc : RulesManifest F) × (client.parse_semantic text ≡ some doc))

      no_rules : Cases → client.parse_rules text ≡ none → ⊥
      no_rules (inl e) k = ground (arith, format)
      no_rules (inr (doc, e)) k = elim (Outcome-cases (validate doc)) [
        | inl (u, v) ↦ ground (arith, format)
        | inr (inl (why, v)) ↦ ground (arith, format)
        | inr (inr v) ↦ ground (arith, format)
      ]

      guarded :
          (rules : Rules F)
          → Cases
          → client.parse_rules text ≡ some rules
          → all_guarded rules ≡ true
      guarded rules (inl e) k = ground (arith, format)
      guarded rules (inr (doc, e)) k = elim (Outcome-cases (validate doc)) [
        | inl (u, v) ↦ ground (arith, format)
        | inr (inl (why, v)) ↦ ground (arith, format)
        | inr (inr v) ↦ ground (arith, format)
      ]

      falls :
          Cases
          → compile_rules_or_default {E = Unit {0}} files client ptr text robot_id
            ≡ raw_or_default {E = Unit {0}} files client ptr text
      falls (inl e) = rw (compile_rules_or_default, e) refl
      falls (inr (doc, e)) = elim (Outcome-cases (validate doc)) [
        | inl (u, v) ↦ ground (arith, format)
        | inr (inl (why, v)) ↦ rw (compile_rules_or_default, e, compile-err doc robot_id why v) refl
        | inr (inr v) ↦ ground (arith, format)
      ]

  -- A JSON document that is valid is accepted by the command; a client that gets the same file, whose
  -- text is neither a TOML document nor TOML rules, starts with rules that fire nothing.
  pub check_text_json :
      (text robot_id : Str) (doc : RulesManifest F)
      → client.parse_rules empty_rules ≡ some (record { rules = [] })
      → guess_format text ≡ json
      → from_json text ≡ some doc
      → validate doc ≡ ok tt
      → client.parse_semantic text ≡ none
      → client.parse_rules text ≡ none
      → (check_text sources text ≡ ok valid)
        × ((store : ActiveRules F) × (compile_rules_or_default {E = Unit {0}} files client ptr text
                robot_id
              ≡ ok store)
            × IsSilent store)
  unfolding check_text parse_semantic_auto
  check_text_json text robot_id doc empty format parsed fits other raw = (
    ground (arith, format, parsed, fits),
    (
      silent_store ptr,
      text_lem files client ptr empty robot_id text raw (rw other tt),
      silent_lem (silent_store ptr) refl,
    ),
  )
