-- ===== src/Config/Fleet.antt =====
-- src/config.rs with src/registry.rs: the loop of hot reload over a sequence of fleet rulesets.
use flo.Base.{
  ℕ, ◌≡◌, ◌≢◌, refl, ◌∙◌, ◌⊎◌, inl, inr, Bool, true, false, Option, none, some, List, [], ◌∷◌, Str,
  Str_eq, lookup, Outcome, ok, err, panic, Option-cases, Bool-cases, arith,
}
use flo.Rules.Floats.{Floats}
use flo.Rules.Model.{Rules, Ruleset}
use flo.Registry.Publish.{
  Row, Registry, RegistryError, RegisterOutcome, inserted, updated, rejected_conflict, Db, publish,
}
use flo.Registry.Ownership.{Follows, publish-Follows}
use flo.Registry.Record.{publish-accepted}
use flo.Config.HotReload.{
  Shared, ActiveRules, HotReload, swap, reload_text, reload_accepted, after_publish,
  on_fleet_sample,
}
use flo.Config.Loop.{Update, reload_fleet}

-- A name has a row, of this owner.
abbrev pub HasOwner : Registry → Str → Str → Type 0
HasOwner reg name owner = (row : Row) × (lookup name reg.rows ≡ some row) × (row.owner ≡ owner)

module _ {F : Floats} (parse_rules : Str → Option (Rules F))
    (parse_ruleset : Str → Option (Ruleset F)) (to_toml : Ruleset F → Option Str)
    (sha256 : Str → Str) where
  -- The ruleset came in one of the updates.
  abbrev pub IsSent : List Update → Ruleset F → Type 0
  IsSent [] rs = ⊥
  IsSent (u ∷ us) rs = (parse_ruleset u.text ≡ some rs) ⊎ IsSent us rs

  -- The rules are those of the ruleset's text.
  abbrev pub IsText : Shared F → Ruleset F → Type 0
  IsText shared rs =
      (text : Str) × (to_toml rs ≡ some text) × (parse_rules text ≡ some shared.rules)

  -- The rules are of the owner that their name has on record.
  abbrev pub IsOwned : Registry → Shared F → Ruleset F → Type 0
  IsOwned registry shared rs = IsText shared rs × HasOwner registry rs.ruleset_name rs.robot_owner

  -- Those that the store has active, or those that its subscribers see.
  abbrev seen : Bool → ActiveRules F → Shared F
  seen true store = store.inner
  seen false store = store.watch

  accepted_lem :
      (b listened : Bool) (h : HotReload F) (ptr : ℕ) (rs : Ruleset F)
      → (seen b (reload_accepted parse_rules parse_ruleset to_toml sha256 listened h ptr rs).store
          ≡ seen b h.store)
        ⊎ IsText
            (seen b
              (reload_accepted parse_rules parse_ruleset to_toml sha256 listened h ptr rs).store)
            rs
  unfolding reload_accepted reload_text swap
  accepted_lem b listened h ptr rs = elim (Option-cases (to_toml rs)) [
    | inl e ↦ inl (rw (reload_accepted, e) refl)
    | inr (text, e) ↦ elim (Option-cases (parse_rules text)) [
      | inl k ↦ inl (rw (reload_accepted, e, reload_text, k) refl)
      | inr (rules, k) ↦ rw (reload_accepted, e, reload_text, k) (swapped b listened text rules k)
    ]
  ]
    where
      swapped :
          (b listened : Bool) (text : Str) (rules : Rules F)
          → parse_rules text ≡ some rules
          → (seen b (swap listened h.store (record { ptr = ptr; rules = rules })) ≡ seen b h.store)
            ⊎ ((t : Str) × (some text ≡ some t)
                × (parse_rules t
                    ≡ some
                        (seen b
                          (swap listened h.store (record { ptr = ptr; rules = rules }))).rules))
      swapped true listened text rules k = inr (text, refl, k)
      swapped false true text rules k = inr (text, refl, k)
      swapped false false text rules k = inl refl

  accepted_registry :
      (listened : Bool) (h : HotReload F) (ptr : ℕ) (rs : Ruleset F)
      → (reload_accepted parse_rules parse_ruleset to_toml sha256 listened h ptr rs).registry
        ≡ h.registry
  unfolding reload_accepted
  accepted_registry listened h ptr rs = elim (Option-cases (to_toml rs)) [
    | inl e ↦ rw (reload_accepted, e) refl
    | inr (text, e) ↦ rw (reload_accepted, e) refl
  ]

  after_registry :
      (listened : Bool) (h : HotReload F) (ptr : ℕ) (rs : Ruleset F)
      (o : Outcome RegistryError RegisterOutcome)
      → (after_publish parse_rules parse_ruleset to_toml sha256 listened h ptr rs o).registry
        ≡ h.registry
  unfolding after_publish
  after_registry listened h ptr rs (ok inserted) = accepted_registry listened h ptr rs
  after_registry listened h ptr rs (ok (updated version sha)) = accepted_registry listened h ptr rs
  after_registry listened h ptr rs (ok rejected_conflict) = refl
  after_registry listened h ptr rs (err e) = refl
  after_registry listened h ptr rs panic = refl

  after_lem :
      (b listened : Bool) (h : HotReload F) (ptr : ℕ) (rs : Ruleset F)
      (o : Outcome RegistryError RegisterOutcome)
      → ((outcome : RegisterOutcome)
          → o ≡ ok outcome
          → outcome ≢ rejected_conflict
          → HasOwner h.registry rs.ruleset_name rs.robot_owner)
      → (seen b (after_publish parse_rules parse_ruleset to_toml sha256 listened h ptr rs o).store
          ≡ seen b h.store)
        ⊎ IsOwned
            (after_publish parse_rules parse_ruleset to_toml sha256 listened h ptr rs o).registry
            (seen b
              (after_publish parse_rules parse_ruleset to_toml sha256 listened h ptr rs o).store)
            rs
  unfolding after_publish
  after_lem b listened h ptr rs (ok inserted) own = elim (accepted_lem b listened h ptr rs) [
    | inl same ↦ inl same
    | inr active ↦
        inr (active, rw (accepted_registry listened h ptr rs) (own inserted refl (λ e. cc)))
  ]
  after_lem b listened h ptr rs (ok (updated version sha)) own =
      elim (accepted_lem b listened h ptr rs) [
        | inl same ↦ inl same
        | inr active ↦ inr (
          active,
          rw (accepted_registry listened h ptr rs) (own (updated version sha) refl (λ e. cc)),
        )
      ]
  after_lem b listened h ptr rs (ok rejected_conflict) own = inl refl
  after_lem b listened h ptr rs (err e) own = inl refl
  after_lem b listened h ptr rs panic own = inl refl

  -- A name that is taken keeps its owner through a publish.
  publish-HasOwner :
      (d : Db) (ts : Str) (reg : Registry) (rs : Ruleset F) (name owner : Str)
      → HasOwner reg name owner
      → HasOwner (publish to_toml sha256 d ts reg rs).0 name owner
  publish-HasOwner d ts reg rs name owner (row, found, own) =
      go (lookup name (publish to_toml sha256 d ts reg rs).0.rows) refl
        (publish-Follows to_toml sha256 d ts reg rs name found)
    where
      go :
          (o : Option Row)
          → lookup name (publish to_toml sha256 d ts reg rs).0.rows ≡ o
          → Follows row o
          → HasOwner (publish to_toml sha256 d ts reg rs).0 name owner
      go none e follows = absurd follows
      go (some after) e (kept, version) = (after, e, kept ∙ own)

  abbrev next_of : HotReload F → Update → HotReload F
  next_of h u =
      on_fleet_sample parse_rules parse_ruleset to_toml sha256 u.db u.ts u.listened h u.ptr u.text

  sample-HasOwner :
      (h : HotReload F) (u : Update) (name owner : Str)
      → HasOwner h.registry name owner
      → HasOwner (next_of h u).registry name owner
  unfolding on_fleet_sample
  sample-HasOwner h u name owner own = elim (Option-cases (parse_ruleset u.text)) [
    | inl e ↦ rw (on_fleet_sample, e) own
    | inr (rs, e) ↦
        rw
          (
            on_fleet_sample,
            e,
            after_registry u.listened
                (record h { registry = (publish to_toml sha256 u.db u.ts h.registry rs).0 }) u.ptr
                rs (publish to_toml sha256 u.db u.ts h.registry rs).1,
          )
          (publish-HasOwner u.db u.ts h.registry rs name owner own)
  ]

  sample_lem :
      (b : Bool) (h : HotReload F) (u : Update)
      → (seen b (next_of h u).store ≡ seen b h.store)
        ⊎ ((rs : Ruleset F) × (parse_ruleset u.text ≡ some rs)
            × IsOwned (next_of h u).registry (seen b (next_of h u).store) rs)
  unfolding on_fleet_sample
  sample_lem b h u = elim (Option-cases (parse_ruleset u.text)) [
    | inl e ↦ inl (rw (on_fleet_sample, e) refl)
    | inr (rs, e) ↦
        let published = publish to_toml sha256 u.db u.ts h.registry rs in
        let after : HotReload F = record h { registry = published.0 } in
        let own : (outcome : RegisterOutcome)
            → published.1 ≡ ok outcome
            → outcome ≢ rejected_conflict
            → HasOwner published.0 rs.ruleset_name rs.robot_owner =
          λ outcome k other.
            let (row, found, kept, named, digest) =
              publish-accepted to_toml sha256 u.db u.ts h.registry rs k other in
            (row, found, kept) in
        elim (after_lem b u.listened after u.ptr rs published.1 own) [
          | inl same ↦ inl (rw (on_fleet_sample, e) same)
          | inr owned ↦ inr (rs, e, rw (on_fleet_sample, e) owned)
        ]
  ]

  reload_on :
      (h : HotReload F) (u : Update) (us : List Update)
      → h.running ≡ true
      → reload_fleet parse_rules parse_ruleset to_toml sha256 h (u ∷ us)
        ≡ reload_fleet parse_rules parse_ruleset to_toml sha256 (next_of h u) us
  unfolding reload_fleet
  reload_on h u us e = ground (arith, e)

  reload_off :
      (h : HotReload F) (u : Update) (us : List Update)
      → h.running ≡ false
      → reload_fleet parse_rules parse_ruleset to_toml sha256 h (u ∷ us) ≡ h
  unfolding reload_fleet
  reload_off h u us e = ground (arith, e)

  reload-HasOwner :
      (h : HotReload F) (us : List Update) (name owner : Str)
      → HasOwner h.registry name owner
      → HasOwner (reload_fleet parse_rules parse_ruleset to_toml sha256 h us).registry name owner
  unfolding reload_fleet
  reload-HasOwner h [] name owner own = own
  reload-HasOwner h (u ∷ us) name owner own = elim (Bool-cases h.running) [
    | inl e ↦
        rw (reload_on h u us e)
          (reload-HasOwner (next_of h u) us name owner (sample-HasOwner h u name owner own))
    | inr e ↦ rw (reload_off h u us e) own
  ]

  -- The rules are those of the start, or of an owned ruleset that came in one of the updates.
  abbrev pub IsKept : List Update → Registry → Shared F → Shared F → Type 0
  IsKept us registry start now =
      (now ≡ start) ⊎ ((rs : Ruleset F) × IsSent us rs × IsOwned registry now rs)

  seen-IsKept :
      (b : Bool) (h : HotReload F) (us : List Update)
      → IsKept us
          (reload_fleet parse_rules parse_ruleset to_toml sha256 h us).registry
          (seen b h.store)
          (seen b (reload_fleet parse_rules parse_ruleset to_toml sha256 h us).store)
  unfolding reload_fleet
  seen-IsKept b h [] = inl refl
  seen-IsKept b h (u ∷ us) = elim (Bool-cases h.running) [
    | inr e ↦ inl (rw (reload_off h u us e) refl)
    | inl e ↦ elim (seen-IsKept b (next_of h u) us) [
      | inr (rs, sent, owned) ↦ inr (rs, inr sent, rw (reload_on h u us e) owned)
      | inl same ↦ elim (sample_lem b h u) [
        | inl first ↦ inl (rw (reload_on h u us e) (same ∙ first))
        | inr (rs, parsed, (active, own)) ↦ inr (
          rs,
          inl parsed,
          rw (reload_on h u us e)
              (rw same active, reload-HasOwner (next_of h u) us rs.ruleset_name rs.robot_owner own),
        )
      ]
    ]
  ]

  -- Whatever updates come, from whom and in whatever order, whichever statements of the database fail
  -- and whether or not anybody listens: the active rules are those of the start, or those of a ruleset
  -- that came in one of the updates and names the owner that its name has on record now; and the same
  -- holds of the rules that the subscribers see.
  pub reload_fleet-IsOwned :
      (h : HotReload F) (us : List Update)
      → IsKept us
          (reload_fleet parse_rules parse_ruleset to_toml sha256 h us).registry
          h.store.inner
          (reload_fleet parse_rules parse_ruleset to_toml sha256 h us).store.inner
        × IsKept us
            (reload_fleet parse_rules parse_ruleset to_toml sha256 h us).registry
            h.store.watch
            (reload_fleet parse_rules parse_ruleset to_toml sha256 h us).store.watch
  reload_fleet-IsOwned h us = (seen-IsKept true h us, seen-IsKept false h us)
