-- ===== src/Config/Bootstrap.antt =====
-- src/config.rs: how the store and the configurations come out of their texts. The TOML parsers are
-- parameters; `ptr` is the identity of a fresh `Arc`.
use flo.Base.{
  is_whitespace, ℕ, zero, suc, ◌-◌, Option, none, some, [], ◌∷◌, ◌++◌, Str, codes, starts_with,
  length, all, if◌then◌else◌, Outcome, ok, ◌>>=◌, ◌>>◌, ok_or, unwrap,
}
use flo.Rules.Floats.{Floats}
use flo.Rules.Model.{Rules}
use flo.Config.HotReload.{Shared, ActiveRules}
use flo.Config.Client.{ClientConfig, validate}
use flo.Config.Server.{ServerConfig}

-- `str::replace`; the first argument is how many characters of a match are left to skip.
replace_from : ℕ → Str → Str → Str → Str
replace_from skip from to [] = []
replace_from (suc skip) from to (c ∷ s) = replace_from skip from to s
replace_from zero from to (c ∷ s) =
    let after = replace_from (length from - 1) from to s in
    let past = replace_from zero from to s in
    if starts_with from (c ∷ s) then to ++ after else c ∷ past

unfoldable pub replace : Str → Str → Str → Str
unfolding replace_from starts_with
replace from to s = replace_from zero from to s

module _ {F : Floats} where
  unfoldable pub new : Shared F → ActiveRules F
  new rules = record { inner = rules; watch = rules }

  unfoldable pub current : ActiveRules F → Shared F
  current store = store.inner

  -- What a subscriber of the changes reads.
  unfoldable pub subscribe : ActiveRules F → Shared F
  subscribe store = store.watch

  module _ (parse_rules : Str → Option (Rules F)) where
    unfoldable pub bootstrap : ℕ → Str → Option (ActiveRules F)
    unfolding new
    bootstrap ptr text = elim (parse_rules text) [
      | none ↦ none
      | some rules ↦ some (new (record { ptr = ptr; rules = rules }))
    ]

    -- `demo` is the text of the built-in rules.
    unfoldable pub bootstrap_demo {ℓ} : {E : Type ℓ} → Str → ℕ → Str → Outcome E (ActiveRules F)
    unfolding bootstrap replace
    bootstrap_demo demo ptr robot_id = unwrap (bootstrap ptr (replace (codes "{id}") robot_id demo))

-- The text of the parser's error is not modelled.
unfoldable pub client_from_toml : (Str → Option ClientConfig) → Str → Outcome Str ClientConfig
client_from_toml parse text = do
  cfg ← ok_or (parse text) (codes "invalid client config TOML")
  validate cfg
  ok cfg

-- An empty text, after `trim`, is the default configuration.
unfoldable pub server_from_toml : (Str → Option ServerConfig) → Str → Outcome Str ServerConfig
server_from_toml parse text =
    if all is_whitespace text
    then ok (record { expected_clients = [] })
    else ok_or (parse text) (codes "invalid server config TOML")
