-- ===== src/Examples/Data.antt =====
-- Test data: numbers, codecs, configurations, rules and documents.
use Prim.Native.Nat.{Ordering, lt, eq, gt}
use flo.Base.{
  ℕ, ◌-◌, ◌≡◌, refl, sym, true, false, Option, none, some, is_some, [], ◌∷◌, Str, codes, nat_eq,
  ltb, if◌then◌else◌,
}
use flo.Rules.Floats.{Floats, ℤ, pos, negsuc}
use flo.Rules.Json.{Value, object, field, end}
use flo.Rules.Model.{
  Op, Operand, zone, Predicate, comparison, Action, reliable, edge, level, Trigger,
}
use flo.Config.Client.{ClientConfig, LocationSubscriptions, ZoneSubscriptions, PublisherConfig}
use flo.Config.Server.{ServerConfig}
use flo.Registration.Protocol.{Codec}

abbrev pub order : ℕ → ℕ → Ordering
order a b = if ltb a b then lt else if nat_eq a b then eq else gt

abbrev pub order_parts : Option ℕ → Option ℕ → Option Ordering
order_parts (some a) (some b) = some (order a b)
order_parts _ _ = none

abbrev pub minus : Option ℕ → Option ℕ → Option ℕ
minus (some a) (some b) = some (a - b)
minus _ _ = none

abbrev pub magnitude : ℤ → ℕ
magnitude (pos n) = n
magnitude (negsuc n) = n

pub finite_part :
    (x : Option ℕ) → is_some x ≡ true → (n : ℕ) × (x ≡ some n) × (some (some n) ≡ some x)
finite_part none h = cc
finite_part (some n) h = (n, refl, refl)

pub no_part : (x : Option ℕ) → is_some x ≡ false → x ≡ none
no_part none h = refl
no_part (some n) h = cc

-- Naturals and one value that is not finite.
abbrev pub floats : Floats
floats = record {
  F64 = Option ℕ;
  partial_cmp = order_parts;
  sub = minus;
  abs = λ x. x;
  is_finite = is_some;
  zero = some 0;
  epsilon = some 1;
  Number = ℕ;
  number_eq = nat_eq;
  as_f64 = λ n. some (some n);
  from_int = magnitude;
  from_f64 = λ x. x;
  from_f64_finite = finite_part;
  from_f64_other = no_part;
}

-- The codec whose bytes are the values.
abbrev pub plain_codec : (A : Type 0) → Codec A
plain_codec A = record { Bytes = A; encode = some; decode = some; decode-encode = λ a e. sym e }

abbrev pub location_topics : LocationSubscriptions
location_topics = record { x = codes "x"; y = codes "y"; z = codes "z" }

abbrev pub zone_topics : ZoneSubscriptions
zone_topics = record { site_id = codes "s"; zone_enter = codes "in"; zone_exit = codes "out" }

abbrev pub publisher : PublisherConfig
publisher = record { topic = codes "t"; period_ms = 100 }

abbrev pub client_config : ClientConfig
client_config = record {
  client = record { heartbeat_interval_ms = 1000 };
  server = none;
  default_subscriptions =
      some (record { location = some location_topics; zone = some zone_topics });
  default_publishers = some (record { location = some publisher; zone = some publisher });
}

abbrev pub server_config : ServerConfig
server_config = record { expected_clients = record { robot_id = codes "r1" } ∷ [] }

abbrev pub estop : Action floats
estop = record { topic = codes "stop/fleet/cmd"; qos = reliable; payload = object end }

abbrev pub in_dock : Predicate floats
in_dock = comparison Op.eq (Operand.prim zone) (Operand.str (codes "dock"))

-- An edge and a level trigger on the zone of a robot.
abbrev pub zone_edge : Trigger floats
zone_edge = record { topic = codes "robot/r1/local/zone"; pred = some in_dock; mode = edge }

abbrev pub zone_level : Trigger floats
zone_level = record { topic = codes "robot/r1/local/zone"; pred = some in_dock; mode = level }

abbrev pub power_level : Trigger floats
power_level = record { topic = codes "robot/r1/local/power"; pred = none; mode = level }

abbrev pub zone_sample : Str → Value floats
zone_sample z = object (field (codes "zone_id") (Value.string z) end)
