-- ===== src/Engine/State.antt =====
-- src/engine.rs: `EvalState`, and the samples that it takes in. The wiring of `run` (transport and
-- store) is in Run; the clock is an argument.
use flo.Base.{
  ℕ, ◌≡◌, ◌↔◌, Bool, true, ◌&&◌, ◌||◌, Option, none, some, List, [], ◌∷◌, Str, Str_eq, codes, Map,
  Eq, nat_eq, str_eq, str_eq_iff, insert, starts_with, ends_with, split, if◌then◌else◌, arith,
}
use flo.Rules.Floats.{Floats}
use flo.Rules.Json.{Value, get}
use flo.Engine.Eval.{string_of}
use flo.Engine.Zones.{Zones, enter_zone, clear_zone}

-- The key of a trigger's last outcome: its topic, its rule's index and its own.
abbrev pub PrevKey : Type 0
PrevKey = Str × ℕ × ℕ

abbrev pub key_eq : PrevKey → PrevKey → Bool
key_eq a b = str_eq a.0 b.0 && (nat_eq a.1 b.1 && nat_eq a.2 b.2)

pub key_eq_iff : (a b : PrevKey) → (key_eq a b ≡ true) ↔ (a ≡ b)
key_eq_iff (t, r, i) (u, q, j) = ground (arith, str_eq_iff t u)

instance abbrev pub PrevKey_eq : Eq PrevKey
PrevKey_eq = record { same = key_eq; same_iff = key_eq_iff }

abbrev pub Prev : Type 0
Prev = Map PrevKey Bool

pub record EvalState (F : Floats) : Type 0 where
  pub latest : Map Str (Value F)
  pub zones : Zones
  pub prev : Prev
  -- the identity of the `Arc` that holds the last ruleset
  pub last_rules : Option ℕ
  pub timestamps : Map Str ℕ
  pub staleness_timeout : Option ℕ

module _ (F : Floats) where
  unfoldable pub empty : EvalState F
  empty = record {
    latest = [];
    zones = [];
    prev = [];
    last_rules = none;
    timestamps = [];
    staleness_timeout = none;
  }

unfoldable pub is_zone_event : Str → Bool
is_zone_event topic =
    starts_with (codes "zone/") topic
    && (ends_with (codes "/entered") topic || ends_with (codes "/cleared") topic)

-- The second segment of three or more is the zone, and `robot_id` of the payload the robot.
unfoldable pub zone_event : Str → List Str → Option Str → Zones → Zones
zone_event topic (_ ∷ zone_id ∷ _ ∷ _) (some robot_id) zones =
    if ends_with (codes "/entered") topic
    then enter_zone zones robot_id zone_id
    else clear_zone zones robot_id zone_id
zone_event topic _ _ zones = zones

module _ {F : Floats} where
  unfoldable pub with_staleness : EvalState F → ℕ → EvalState F
  with_staleness st timeout = record st { staleness_timeout = some timeout }

  unfoldable pub ingest_sample : ℕ → EvalState F → Str → Value F → EvalState F
  ingest_sample now st topic payload = record st {
    timestamps = insert topic now st.timestamps;
    latest = insert topic payload st.latest;
  }

  unfoldable pub ingest : ℕ → EvalState F → Str → Value F → EvalState F
  unfolding is_zone_event zone_event ingest_sample
  ingest now st topic payload =
      if is_zone_event topic
      then record st {
        zones =
            zone_event topic (split b'/' topic) (string_of (get (codes "robot_id") payload))
              st.zones;
      }
      else ingest_sample now st topic payload
