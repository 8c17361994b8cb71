-- ===== src/Engine/Zones.antt =====
-- src/engine.rs: the zone map, from robots to the sets of zones that they are in.
use flo.Base.{
  Bool, false, none, some, List, [], Str, Str_eq, Map, lookup, insert, without, member, add, delete,
  is_empty, any, if◌then◌else◌,
}

abbrev pub Zones : Type 0
Zones = Map Str (List Str)

-- `entry(robot).or_default()`
unfoldable pub zones_of : Zones → Str → List Str
zones_of zones robot_id = elim (lookup robot_id zones) [ none ↦ [] | some zs ↦ zs ]

unfoldable pub enter_zone : Zones → Str → Str → Zones
unfolding zones_of
enter_zone zones robot_id zone_id = insert robot_id (add zone_id (zones_of zones robot_id)) zones

unfoldable pub clear_zone : Zones → Str → Str → Zones
clear_zone zones robot_id zone_id = elim (lookup robot_id zones) [
  | none ↦ zones
  | some zs ↦
      if is_empty (delete zone_id zs)
      then without robot_id zones
      else insert robot_id (delete zone_id zs) zones
]

unfoldable pub share_zone : Zones → Str → Str → Bool
share_zone zones robot_a robot_b = elim (lookup robot_a zones) [
  | none ↦ false
  | some a_zones ↦ elim (lookup robot_b zones) [
    | none ↦ false
    | some b_zones ↦ any (λ z. member z b_zones) a_zones
  ]
]
