-- ===== src/Runtime/FailSafe.antt =====
-- src/runtime.rs: the rules that are loaded where there is no usable ruleset.
use flo.Base.{
  ℕ, ◌≡◌, refl, inl, inr, Option, none, some, is_some, Str, [], arith, Outcome, ok, err, panic,
  Option-cases, Outcome-cases,
}
use flo.Rules.Floats.{Floats}
use flo.Rules.Model.{Rules}
use flo.Semantic.Model.{RulesManifest}
use flo.Semantic.Compile.{compile}
use flo.Config.Client.{
  ClientConfig, validate, IsComplete, validate_iff_IsComplete, validate-ne-panic,
}
use flo.Config.HotReload.{ActiveRules, Shared}
use flo.Config.Bootstrap.{bootstrap, client_from_toml}
use flo.Auth.Credentials.{Files}
use flo.Cli.Args.{Args}
use flo.Engine.State.{EvalState}
use flo.Engine.Tick.{tick_with_arc, tick, eval_rules}
use flo.Runtime.Inputs.{
  Toml, empty_rules, Inputs, load_text, load_config, load_store, fail_safe_store,
  compile_rules_or_default, load_inputs, raw_or_default, printed, compiled, by_document,
  load_ruleset,
}

module _ {F : Floats} where
  -- A tick of the store fires nothing, whatever the samples are.
  abbrev pub IsSilent : ActiveRules F → Type 0
  IsSilent store =
      (now : ℕ) (st : EvalState F) → (tick_with_arc now st store.inner.ptr store.inner.rules).1 ≡ []

  abbrev pub silent_store : ℕ → ActiveRules F
  silent_store ptr =
      let rules : Shared F = record { ptr = ptr; rules = record { rules = [] } } in
      record { inner = rules; watch = rules }

  pub silent_lem :
      (store : ActiveRules F) → store.inner.rules ≡ record { rules = [] } → IsSilent store
  unfolding tick_with_arc tick eval_rules
  silent_lem store e now st = rw e refl

module _ {F : Floats} (files : Files) (toml : Toml F) where
  -- A client configuration that cannot be used: missing, unreadable, malformed or incomplete.
  abbrev ParsedFails : Option ClientConfig → Type 0
  ParsedFails none = Unit
  ParsedFails (some cfg) = ¬ IsComplete cfg

  abbrev ConfigTextFails : Option Str → Type 0
  ConfigTextFails none = Unit
  ConfigTextFails (some text) = ParsedFails (toml.parse_client text)

  abbrev pub ConfigFails : Option Str → Type 0
  ConfigFails none = Unit
  ConfigFails (some path) = ConfigTextFails (files.read_to_string path)

  -- A document that does not compile to rules that can be read back.
  abbrev PrintFails : Option Str → Type 0
  PrintFails none = ⊥
  PrintFails (some print) = toml.parse_rules print ≡ none

  abbrev CompileFails : {X : Type 0} → Outcome X (Rules F) → Type 0
  CompileFails (ok rules) = PrintFails (toml.print_rules rules)
  CompileFails (err e) = Unit
  CompileFails panic = ⊥

  abbrev SemanticFails : Str → Option (RulesManifest F) → Type 0
  SemanticFails robot_id none = Unit
  SemanticFails robot_id (some doc) = CompileFails (compile doc robot_id)

  -- A ruleset that cannot be used: unreadable, or neither a document nor rules.
  abbrev RulesTextFails : Str → Option Str → Type 0
  RulesTextFails robot_id none = Unit
  RulesTextFails robot_id (some text) =
      (toml.parse_rules text ≡ none) × SemanticFails robot_id (toml.parse_semantic text)

  -- No usable ruleset: the one that was asked for fails, or none was and the configuration fails.
  abbrev pub Unusable : Args → Str → Option Str → Type 0
  Unusable args robot_id none = ConfigFails args.config
  Unusable args robot_id (some path) = RulesTextFails robot_id (files.read_to_string path)

  client_ne_panic :
      (parse : Str → Option ClientConfig) (text : Str) → ¬ (client_from_toml parse text ≡ panic)
  unfolding client_from_toml
  client_ne_panic parse text h = elim (Option-cases (parse text)) [
    | inl e ↦ ground arith
    | inr (cfg, e) ↦ elim (Outcome-cases (validate cfg)) [
      | inl (u, k) ↦ ground arith
      | inr (inl (why, k)) ↦ ground arith
      | inr (inr k) ↦ validate-ne-panic cfg k
    ]
  ]

  module _ {ℓ} {E : Type ℓ} (ptr : ℕ)
      (empty : toml.parse_rules empty_rules ≡ some (record { rules = [] })) where
    fail_safe_lem : fail_safe_store {E = E} files toml ptr ≡ ok (silent_store ptr)
    unfolding fail_safe_store bootstrap flo.Config.Bootstrap.new
    fail_safe_lem = rw (fail_safe_store, bootstrap, empty) refl

    raw_lem :
        (text : Str)
        → toml.parse_rules text ≡ none
        → raw_or_default {E = E} files toml ptr text ≡ ok (silent_store ptr)
    unfolding bootstrap
    raw_lem text bad = rw (bootstrap, bad) fail_safe_lem

    printed_lem :
        (text : Str) (print : Option Str)
        → toml.parse_rules text ≡ none
        → PrintFails print
        → printed {E = E} files toml ptr text print ≡ ok (silent_store ptr)
    unfolding bootstrap
    printed_lem text none bad h = absurd h
    printed_lem text (some print) bad h = rw (bootstrap, h) (raw_lem text bad)

    compiled_lem :
        (text : Str) (rules : Outcome _ (Rules F))
        → toml.parse_rules text ≡ none
        → CompileFails rules
        → compiled {E = E} files toml ptr text rules ≡ ok (silent_store ptr)
    compiled_lem text (ok rules) bad h = printed_lem text (toml.print_rules rules) bad h
    compiled_lem text (err e) bad h = raw_lem text bad
    compiled_lem text panic bad h = absurd h

    pub text_lem :
        (robot_id text : Str)
        → toml.parse_rules text ≡ none
        → SemanticFails robot_id (toml.parse_semantic text)
        → compile_rules_or_default {E = E} files toml ptr text robot_id ≡ ok (silent_store ptr)
    unfolding compile_rules_or_default
    text_lem robot_id text bad h = go (toml.parse_semantic text) h
      where
        go :
            (doc : Option (RulesManifest F))
            → SemanticFails robot_id doc
            → by_document {E = E} files toml ptr text robot_id doc ≡ ok (silent_store ptr)
        go none h = raw_lem text bad
        go (some doc) h = compiled_lem text (compile doc robot_id) bad h

    ruleset_lem :
        (robot_id : Str) (text : Option Str)
        → RulesTextFails robot_id text
        → load_ruleset {E = E} files toml ptr text robot_id ≡ ok (silent_store ptr)
    ruleset_lem robot_id none h = fail_safe_lem
    ruleset_lem robot_id (some text) h = text_lem robot_id text h.0 h.1

    -- Whatever becomes of the configuration, reading it does not panic.
    text_total :
        (text : Str)
        → (c : Option ClientConfig) × (load_text {E = E} files toml ptr (some text) ≡ ok c)
    text_total text = elim (Outcome-cases (client_from_toml toml.parse_client text)) [
      | inl (cfg, e) ↦ (some cfg, rw e refl)
      | inr (inl (why, e)) ↦ (none, rw e refl)
      | inr (inr e) ↦ absurd (client_ne_panic toml.parse_client text e)
    ]

    config_total :
        (path : Option Str)
        → (c : Option ClientConfig) × (load_config {E = E} files toml ptr path ≡ ok c)
    config_total none = (none, refl)
    config_total (some path) = elim (Option-cases (files.read_to_string path)) [
      | inl e ↦ (none, rw e refl)
      | inr (text, e) ↦ let (c, k) = text_total text in (c, rw e k)
    ]

    parsed_none :
        (text : Str) (cfg : Option ClientConfig)
        → toml.parse_client text ≡ cfg
        → ParsedFails cfg
        → load_text {E = E} files toml ptr (some text) ≡ ok none
    unfolding client_from_toml
    parsed_none text none e h = rw (client_from_toml, e) refl
    parsed_none text (some cfg) e h = elim (Outcome-cases (validate cfg)) [
      | inl (u, k) ↦ absurd (h ((validate_iff_IsComplete cfg).0 k))
      | inr (inl (why, k)) ↦ rw (client_from_toml, e, k) refl
      | inr (inr k) ↦ absurd (validate-ne-panic cfg k)
    ]

    config_none :
        (path : Option Str) → ConfigFails path → load_config {E = E} files toml ptr path ≡ ok none
    config_none none h = refl
    config_none (some path) h = go (files.read_to_string path) h
      where
        go :
            (text : Option Str)
            → ConfigTextFails text
            → load_text {E = E} files toml ptr text ≡ ok none
        go none h = refl
        go (some text) h = parsed_none text (toml.parse_client text) refl h

    -- With no usable ruleset (the one asked for is unreadable or no ruleset at all, or none was asked
    -- for and the configuration is missing, unreadable, malformed or incomplete), and as the text
    -- `rules = []` is read as no rules, the inputs are loaded without a panic and no tick of the store
    -- ever fires an action.
    pub load_inputs_fail_safe :
        (args : Args) (robot_id : Str)
        → Unusable args robot_id args.ruleset_path
        → (inputs : Inputs F) × (load_inputs {E = E} files toml ptr args robot_id ≡ ok inputs)
          × IsSilent inputs.store
    unfolding load_inputs
    load_inputs_fail_safe args robot_id h = go args.ruleset_path refl h
      where
        loaded :
            (c : Option ClientConfig)
            → load_config {E = E} files toml ptr args.config ≡ ok c
            → load_store {E = E} files toml ptr args.ruleset_path (is_some c) robot_id
              ≡ ok (silent_store ptr)
            → (inputs : Inputs F) × (load_inputs {E = E} files toml ptr args robot_id ≡ ok inputs)
              × IsSilent inputs.store
        loaded c e k = (
          record { client_config = c; store = silent_store ptr },
          rw (load_inputs, e, k) refl,
          silent_lem (silent_store ptr) refl,
        )

        go :
            (path : Option Str)
            → args.ruleset_path ≡ path
            → Unusable args robot_id path
            → (inputs : Inputs F) × (load_inputs {E = E} files toml ptr args robot_id ≡ ok inputs)
              × IsSilent inputs.store
        go none e h = loaded none (config_none args.config h) (rw e fail_safe_lem)
        go (some path) e h =
            let (c, k) = config_total args.config in
            loaded c k (rw e (ruleset_lem robot_id (files.read_to_string path) h))
