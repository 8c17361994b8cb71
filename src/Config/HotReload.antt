-- ===== src/Config/HotReload.antt =====
-- src/config.rs: the active ruleset and the body of the hot-reload loop for one sample. The two TOML
-- parsers are parameters. One task swaps the store, so that a swap is one step.
use flo.Base.{
  ℕ, ◌≡◌, refl, ◌⊎◌, inl, inr, Bool, false, Option, none, some, Str, Str_eq, lookup, Outcome, ok,
  err, panic, if◌then◌else◌,
}
use flo.Rules.Floats.{Floats}
use flo.Rules.Model.{Rules, Ruleset}
use flo.Registry.Publish.{
  Row, Registry, RegistryError, RegisterOutcome, inserted, updated, rejected_conflict, Db, publish,
}
use flo.Registry.Ownership.{publish_owner, publish-ne-inserted}

-- An `Arc` of a ruleset: its identity and what it holds.
pub record Shared (F : Floats) : Type 0 where
  pub ptr : ℕ
  pub rules : Rules F

-- The store, and what the `watch` channel holds for the subscribers.
pub record ActiveRules (F : Floats) : Type 0 where
  pub inner : Shared F
  pub watch : Shared F

-- The loop's store and the registry of its policy; a panic ends the loop.
pub record HotReload (F : Floats) : Type 0 where
  pub store : ActiveRules F
  pub registry : Registry
  pub running : Bool

module _ {F : Floats} where
  -- `listened` is whether the `watch` channel has a receiver: where it has none, `send` stores nothing,
  -- and its error is dropped.
  unfoldable pub swap : Bool → ActiveRules F → Shared F → ActiveRules F
  swap listened store rules = record {
    inner = rules;
    watch = if listened then rules else store.watch;
  }

  module _ (parse_rules : Str → Option (Rules F)) where
    -- `ptr` is the identity of a fresh `Arc`.
    unfoldable pub reload_text : Bool → ActiveRules F → ℕ → Str → ActiveRules F
    unfolding swap
    reload_text listened store ptr text = elim (parse_rules text) [
      | none ↦ store
      | some rules ↦ swap listened store (record { ptr = ptr; rules = rules })
    ]

    module _ (parse_ruleset : Str → Option (Ruleset F)) (to_toml : Ruleset F → Option Str)
        (sha256 : Str → Str) where
      -- `Rules::from_toml(&rs.to_toml())`, where `to_toml` panics if it fails.
      unfoldable pub reload_accepted : Bool → HotReload F → ℕ → Ruleset F → HotReload F
      unfolding reload_text
      reload_accepted listened h ptr rs = elim (to_toml rs) [
        | none ↦ record h { running = false }
        | some text ↦ record h { store = reload_text listened h.store ptr text }
      ]

      unfoldable pub after_publish :
          Bool → HotReload F → ℕ → Ruleset F → Outcome RegistryError RegisterOutcome → HotReload F
      unfolding reload_accepted
      after_publish listened h ptr rs (ok inserted) = reload_accepted listened h ptr rs
      after_publish listened h ptr rs (ok (updated version sha)) = reload_accepted listened h ptr rs
      after_publish listened h ptr rs (ok rejected_conflict) = h
      after_publish listened h ptr rs (err e) = h
      after_publish listened h ptr rs panic = h

      -- The arm with a registry.
      unfoldable pub on_fleet_sample : Db → Str → Bool → HotReload F → ℕ → Str → HotReload F
      unfolding after_publish
      on_fleet_sample d ts listened h ptr text = elim (parse_ruleset text) [
        | none ↦ h
        | some rs ↦
            let (registry, outcome) = publish to_toml sha256 d ts h.registry rs in
            after_publish listened (record h { registry = registry }) ptr rs outcome
      ]

      owned :
          (d : Db) (ts : Str) (listened : Bool) (h : HotReload F) (ptr : ℕ) (rs : Ruleset F)
          (owner : Str) (reg : Registry) (outcome : Outcome RegistryError RegisterOutcome)
          → ¬ (outcome ≡ ok inserted)
          → ((version : ℕ) (sha : Str)
              → outcome ≡ ok (updated version sha)
              → owner ≡ rs.robot_owner)
          → ((after_publish listened (record h { registry = reg }) ptr rs outcome).store ≡ h.store)
            ⊎ (owner ≡ rs.robot_owner)
      unfolding after_publish
      owned d ts listened h ptr rs owner reg (ok inserted) new own = absurd (new refl)
      owned d ts listened h ptr rs owner reg (ok (updated version sha)) new own =
          inr (own version sha refl)
      owned d ts listened h ptr rs owner reg (ok rejected_conflict) new own = inl refl
      owned d ts listened h ptr rs owner reg (err e) new own = inl refl
      owned d ts listened h ptr rs owner reg panic new own = inl refl

      -- A fleet ruleset under a name that is taken becomes active only if it names the owner on
      -- record; any other leaves the active rules, and what the subscribers see, as they are.
      on_fleet_sample_owner :
          (d : Db) (ts : Str) (listened : Bool) (h : HotReload F) (ptr : ℕ) (text : Str)
          (rs : Ruleset F) {row : Row}
          → parse_ruleset text ≡ some rs
          → lookup rs.ruleset_name h.registry.rows ≡ some row
          → ((on_fleet_sample d ts listened h ptr text).store ≡ h.store)
            ⊎ (row.owner ≡ rs.robot_owner)
      unfolding on_fleet_sample
      on_fleet_sample_owner d ts listened h ptr text rs {row} parsed taken =
          rw (parsed, on_fleet_sample)
            (owned d ts listened h ptr rs row.owner (publish to_toml sha256 d ts h.registry rs).0
              (publish to_toml sha256 d ts h.registry rs).1
              (publish-ne-inserted to_toml sha256 d ts h.registry rs taken)
              (λ version sha e. publish_owner to_toml sha256 d ts h.registry rs taken e))
