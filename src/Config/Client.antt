-- ===== src/Config/Client.antt =====
-- src/config.rs: the client's configuration and its validation.
use flo.Base.{
  ℕ, List, Option, none, some, Str, codes, is_empty, if◌then◌else◌, Outcome, ok, err, ok_or, ◌>>=◌,
  ◌>>◌, false, ◌≡◌, ◌↔◌, arith,
}

pub record ClientSection : Type 0 where
  pub heartbeat_interval_ms : ℕ

pub record ServerSection : Type 0 where
  pub endpoints : List Str

pub record LocationSubscriptions : Type 0 where
  pub x : Str
  pub y : Str
  pub z : Str

pub record ZoneSubscriptions : Type 0 where
  pub site_id : Str
  pub zone_enter : Str
  pub zone_exit : Str

pub record DefaultSubscriptions : Type 0 where
  pub location : Option LocationSubscriptions
  pub zone : Option ZoneSubscriptions

pub record PublisherConfig : Type 0 where
  pub topic : Str
  pub period_ms : ℕ

pub record DefaultPublishers : Type 0 where
  pub location : Option PublisherConfig
  pub zone : Option PublisherConfig

pub record ClientConfig : Type 0 where
  pub client : ClientSection
  pub server : Option ServerSection
  pub default_subscriptions : Option DefaultSubscriptions
  pub default_publishers : Option DefaultPublishers

-- `if s.is_empty() { return Err(message) }`
abbrev non_empty : Str → Str → Outcome Str (Unit {0})
non_empty s message = if is_empty s then err message else ok tt

unfoldable pub validate : ClientConfig → Outcome Str (Unit {0})
validate cfg = do
  subs ← ok_or cfg.default_subscriptions (codes "missing [default_subscriptions] table")
  loc ← ok_or subs.location (codes "missing [default_subscriptions.location] table")
  non_empty loc.x (codes "default_subscriptions.location.x is empty")
  non_empty loc.y (codes "default_subscriptions.location.y is empty")
  non_empty loc.z (codes "default_subscriptions.location.z is empty")
  zone ← ok_or subs.zone (codes "missing [default_subscriptions.zone] table")
  non_empty zone.site_id (codes "default_subscriptions.zone.site_id is empty")
  non_empty zone.zone_enter (codes "default_subscriptions.zone.zone_enter is empty")
  non_empty zone.zone_exit (codes "default_subscriptions.zone.zone_exit is empty")
  pubs ← ok_or cfg.default_publishers (codes "missing [default_publishers] table")
  pub_loc ← ok_or pubs.location (codes "missing [default_publishers.location] table")
  non_empty pub_loc.topic (codes "default_publishers.location.topic is empty")
  pub_zone ← ok_or pubs.zone (codes "missing [default_publishers.zone] table")
  non_empty pub_zone.topic (codes "default_publishers.zone.topic is empty")
  ok tt

-- The tables and texts that a configuration must have, read off its shape.
abbrev pub Filled : Str → Type 0
Filled s = is_empty s ≡ false

abbrev pub Present : {A : Type 0} → (A → Type 0) → Option A → Type 0
Present P none = ⊥
Present P (some a) = P a

abbrev HasLocation : LocationSubscriptions → Type 0
HasLocation l = Filled l.x × Filled l.y × Filled l.z

abbrev HasZone : ZoneSubscriptions → Type 0
HasZone z = Filled z.site_id × Filled z.zone_enter × Filled z.zone_exit

abbrev HasSubscriptions : DefaultSubscriptions → Type 0
HasSubscriptions s = Present HasLocation s.location × Present HasZone s.zone

abbrev HasPublishers : DefaultPublishers → Type 0
HasPublishers p = Present (λ c. Filled c.topic) p.location × Present (λ c. Filled c.topic) p.zone

abbrev pub IsComplete : ClientConfig → Type 0
IsComplete c =
    Present HasSubscriptions c.default_subscriptions × Present HasPublishers c.default_publishers

-- Validation accepts a client configuration exactly when it is complete: every table is there and
-- no topic in it is empty.
pub validate_iff_IsComplete : (c : ClientConfig) → (validate c ≡ ok tt) ↔ IsComplete c
unfolding validate
validate_iff_IsComplete c = ground arith

-- Validation never panics.
pub validate-ne-panic : (c : ClientConfig) → ¬ (validate c ≡ Outcome.panic)
unfolding validate
validate-ne-panic c h = ground arith
