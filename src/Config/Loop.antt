-- ===== src/Config/Loop.antt =====
-- src/config.rs: the hot-reload loop over the samples that its subscription receives, alone
-- (`run_hot_reload`) and with the registry.
use flo.Base.{
  ℕ, ◌≡◌, refl, ap, Bool, Option, none, List, [], ◌∷◌, ◌++◌, Str, if◌then◌else◌, Outcome, ok,
  unwrap, expect, ◌>>=◌,
}
use flo.Rules.Floats.{Floats}
use flo.Rules.Model.{Rules, Ruleset}
use flo.Registry.Publish.{Db}
use flo.Config.HotReload.{ActiveRules, HotReload, reload_text, on_fleet_sample}
use flo.Topic.Pattern
use flo.Topic.Builders.{rules_key, ruleset_pub_pattern}

-- A sample: its text, the identity of the next `Arc`, whether the `watch` channel has a receiver then,
-- and for the registry the time and which of its SQL statements succeed.
pub record Update : Type 0 where
  pub text : Str
  pub ptr : ℕ
  pub listened : Bool
  pub ts : Str
  pub db : Db

module _ {F : Floats} (parse_rules : Str → Option (Rules F)) where
  unfoldable pub reload_all : ActiveRules F → List Update → ActiveRules F
  reload_all store [] = store
  reload_all store (u ∷ us) = reload_all (reload_text parse_rules u.listened store u.ptr u.text) us

  -- `key_expr` is `KeyExpr::new`. The loop ends when the subscription closes.
  unfoldable pub run_hot_reload {ℓ} :
      {E : Type ℓ}
      → (Str → Option Str)
      → Str
      → ActiveRules F
      → List Update
      → Outcome E (ActiveRules F)
  unfolding reload_all
  run_hot_reload key_expr robot_id store updates = do
    key ← rules_key robot_id
    topic ← unwrap (key_expr key.text)
    pattern ← expect (Pattern.try_new topic)
    ok (reload_all store updates)

  module _ (parse_ruleset : Str → Option (Ruleset F)) (to_toml : Ruleset F → Option Str)
      (sha256 : Str → Str) where
    unfoldable pub reload_fleet : HotReload F → List Update → HotReload F
    reload_fleet h [] = h
    reload_fleet h (u ∷ us) =
        let next =
          on_fleet_sample parse_rules parse_ruleset to_toml sha256 u.db u.ts u.listened h u.ptr
            u.text in
        if h.running then reload_fleet next us else h

    unfoldable pub run_hot_reload_with_registry {ℓ} :
        {E : Type ℓ} → (Str → Option Str) → HotReload F → List Update → Outcome E (HotReload F)
    unfolding reload_fleet
    run_hot_reload_with_registry key_expr h updates = do
      topic ← unwrap (key_expr ruleset_pub_pattern)
      pattern ← expect (Pattern.try_new topic)
      ok (reload_fleet h updates)

  -- Last good: an update that does not parse has no effect, wherever in the sequence of updates it
  -- comes.
  reload_all-malformed :
      (store : ActiveRules F) (before after : List Update) (u : Update)
      → parse_rules u.text ≡ none
      → reload_all store (before ++ u ∷ after) ≡ reload_all store (before ++ after)
  unfolding reload_all reload_text
  reload_all-malformed store [] after u bad =
      ap (λ s. reload_all s after) (rw (reload_text, bad) refl)
  reload_all-malformed store (b ∷ before) after u bad =
      reload_all-malformed (reload_text parse_rules b.listened store b.ptr b.text) before after u
        bad
