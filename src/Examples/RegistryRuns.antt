-- ===== src/Examples/RegistryRuns.antt =====
-- src/registry.rs and src/config.rs: the theorems at a registry of one ruleset.
use mathlib.Core.List.{Permᴰ, Nodup-cons, Nodup-nil, mem_of_ne_of_mem, not-mem-nil}
use flo.Base.{
  ◌⊎◌, ◌≢◌, str_eq, str_eq_iff, arith, if◌then◌else◌, ◌≡◌, refl, ◌++◌, Option, none, some, true,
  false, List, [], ◌∷◌, Str, Str_eq, codes, lookup, ok,
}
use flo.Rules.Model.{Rule, Rules, Ruleset}
use flo.Config.HotReload.{ActiveRules, HotReload}
use flo.Config.Loop.{Update, reload_fleet}
use flo.Config.Fleet.{IsKept, reload_fleet-IsOwned}
use flo.Registry.Publish.{Row, Registry, Db, updated, publish}
use flo.Registry.Reorder.{publish_reordered}
use flo.Registry.Ownership.{Follows, publish-Follows}
use flo.Examples.Data.{floats, estop, zone_edge}

abbrev to_toml : Ruleset floats → Option Str
to_toml rs = some (rs.version ∷ [])

-- The names of the rules, as a text of the whole.
abbrev names_of : List (Rule floats) → Str
names_of [] = []
names_of (r ∷ rs) = r.name ++ names_of rs

abbrev named : Ruleset floats → Option Str
named rs = some (names_of rs.rules)

abbrev sha256 : Str → Str
sha256 text = text

abbrev healthy : Db
healthy = record { select = true; write = true; log = true }

-- A database whose audit table is broken.
abbrev no_log : Db
no_log = record { select = true; write = true; log = false }

abbrev row : Row
row = record { owner = codes "r1"; version = 4; sha = 2 ∷ [] }

abbrev shelf : Registry
shelf = record { rows = (codes "dock", row) ∷ []; audit = [] }

abbrev newer : Ruleset floats
newer = record { ruleset_name = codes "dock"; version = 3; robot_owner = codes "r1"; rules = [] }

publish-Follows_example :
    Follows row
      (lookup (codes "dock") (publish to_toml sha256 no_log (codes "0") shelf newer).0.rows)
unfolding lookup flo.Base.str_eq
publish-Follows_example =
    publish-Follows to_toml sha256 no_log (codes "0") shelf newer (codes "dock") refl

abbrev rule_of : Str → Rule floats
rule_of name = record {
  name = name;
  when = record { all = zone_edge ∷ []; any = [] };
  actions = estop ∷ [];
}

abbrev two : Ruleset floats
two = record newer { rules = rule_of (codes "b") ∷ rule_of (codes "a") ∷ [] }

abbrev turned : List (Rule floats)
turned = rule_of (codes "a") ∷ rule_of (codes "b") ∷ []

b-ne-a : codes "b" ≢ codes "a"
unfolding flo.Base.str_eq
b-ne-a h = ground (arith, (str_eq_iff (codes "b") (codes "a")).1 h)

publish_reordered_example :
    (row : Row) × (lookup (codes "dock") (publish named sha256 healthy (codes "0") shelf two).0.rows
      ≡ some row)
    × (publish named sha256 healthy
          (codes "1")
          (publish named sha256 healthy (codes "0") shelf two).0
          (record two { rules = turned })
        ≡ (
          (publish named sha256 healthy (codes "0") shelf two).0,
          ok (updated row.version row.sha),
        ))
unfolding publish lookup flo.Base.str_eq flo.Engine.Eval.str_cmp
publish_reordered_example =
    publish_reordered named sha256 healthy healthy (codes "0") (codes "1") shelf two turned
      {outcome = updated 5 (codes "ab")} refl (λ h. cc) refl
      (Nodup-cons.1
        (λ m. not-mem-nil (mem_of_ne_of_mem b-ne-a m), Nodup-cons.1 (not-mem-nil, Nodup-nil)))
      ∣ Permᴰ.swap refl refl ∣₁

abbrev no_rules : Rules floats
no_rules = record { rules = [] }

abbrev active : ActiveRules floats
active = record {
  inner = record { ptr = 1; rules = no_rules };
  watch = record { ptr = 1; rules = no_rules };
}

abbrev reloading : HotReload floats
reloading = record { store = active; registry = shelf; running = true }

-- The ruleset of another robot, under the name that `r1` owns.
abbrev foreign : Ruleset floats
foreign = record { ruleset_name = codes "dock"; version = 3; robot_owner = codes "r2"; rules = [] }

abbrev parse_rules : Str → Option (Rules floats)
parse_rules text = some no_rules

abbrev parse_ruleset : Str → Option (Ruleset floats)
parse_ruleset text = some (if str_eq text (codes "x") then foreign else newer)

abbrev update : Str → Update
update text = record {
  text = text;
  ptr = 2;
  listened = str_eq text (codes "y");
  ts = codes "0";
  db = healthy;
}

abbrev reloaded : HotReload floats
reloaded =
    reload_fleet parse_rules parse_ruleset to_toml sha256 reloading
      (update (codes "x") ∷ update (codes "y") ∷ [])

reload_fleet-IsOwned_example :
    IsKept parse_rules parse_ruleset to_toml sha256
      (update (codes "x") ∷ update (codes "y") ∷ [])
      reloaded.registry
      active.inner
      reloaded.store.inner
    × IsKept parse_rules parse_ruleset to_toml sha256
        (update (codes "x") ∷ update (codes "y") ∷ [])
        reloaded.registry
        active.watch
        reloaded.store.watch
reload_fleet-IsOwned_example =
    reload_fleet-IsOwned parse_rules parse_ruleset to_toml sha256 reloading
      (update (codes "x") ∷ update (codes "y") ∷ [])
