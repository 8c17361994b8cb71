-- ===== src/Examples/SemanticRuns.antt =====
-- src/semantic.rs: the theorems at a document of one rule.
use flo.Base.{
  ℕ, lookup, ◌≡◌, refl, Bool, true, false, Option, none, some, List, [], ◌∷◌, Str, codes, Map,
  Outcome, ok,
}
use flo.Rules.Model.{Trigger, Rules, reliable}
use flo.Semantic.Model.{Flat, Zone, SemanticWhen, when, Whens, SemanticAction, RulesManifest}
use flo.Semantic.When.{build_when_expr}
use flo.Semantic.Lower.{lower}
use flo.Semantic.Compile.{compile}
use flo.Semantic.CompileSound.{AreCompiled, compile_sound}
use flo.Semantic.TickSound.{meant, semantic_tick}
use flo.Rules.Json.{object, field, end, number}
use flo.Engine.State.{EvalState, PrevKey, PrevKey_eq}
use flo.Engine.Tick.{tick, snapshot}
use flo.Examples.Data.{floats, zone_sample}

abbrev no_flat_part : Flat floats
no_flat_part = record {
  in_zone = none;
  not_in_zone = none;
  near_human = none;
  not_near_human = none;
  near = none;
  role = none;
}

-- A human nearer than 2, and the robot in the dock or in the role of a lift.
abbrev condition : SemanticWhen floats
condition =
    when (record no_flat_part { near_human = some (some 2) }) Whens.nil
      (Whens.cons (when (record no_flat_part { in_zone = some (codes "dock") }) Whens.nil Whens.nil)
        (Whens.cons (when (record no_flat_part { role = some (codes "lift") }) Whens.nil Whens.nil)
          Whens.nil))

abbrev dock : Zone floats
dock = record { shape = codes "rect"; x = some 0; y = some 0; w = some 4; h = some 3 }

abbrev slow : SemanticAction floats
slow = record {
  estop = false;
  slow_to = some (some 1);
  resume = false;
  topic = none;
  payload = none;
  qos = reliable;
}

abbrev pub document : RulesManifest floats
document = record {
  site = record { id = codes "lab"; frame = codes "map" };
  zones = (codes "dock", dock) ∷ [];
  rules = record { name = codes "near"; when = condition; actions = slow ∷ [] } ∷ [];
}

abbrev result {ℓ} : {E : Type ℓ} {A : Type 0} → A → Outcome E A → A
result a (ok b) = b
result a _ = a

abbrev compiled : Rules floats
compiled = result (record { rules = [] }) (compile document (codes "r1"))

compile_sound_example : AreCompiled (codes "r1") document.rules compiled.rules
unfolding compile flo.Semantic.Compile.validate flo.Semantic.Compile.validate_actions
    flo.Semantic.Action.try_from_action build_when_expr flo.Semantic.When.check_flat
    flo.Semantic.When.leaf_triggers flo.Semantic.When.push_leaf flo.Topic.Builders.robot_local
    flo.Topic.Name.try_new flo.Topic.Grammar.matches_one_of flo.Base.split
    flo.Topic.Grammar.canonicalize flo.Base.str_eq flo.Base.lookup flo.Semantic.When.combine
    flo.Semantic.When.leaves_then flo.Semantic.Compile.compile_rules flo.Base.strip_prefix
    flo.Semantic.Action.compile_action_from_spec flo.Semantic.Compile.compile_actions
    flo.Semantic.Compile.place flo.Semantic.Compile.validate_rules flo.Semantic.Lower.and_group
    lower flo.Semantic.Lower.or_element flo.Semantic.When.push_end flo.Topic.Builders.stop_cmd
    flo.Topic.Grammar.canonical_rest flo.Topic.Grammar.canonical_strip flo.Topic.Grammar.cut
compile_sound_example = compile_sound document (codes "r1") compiled refl refl

-- A human stands near, and the robot has come into the dock.
abbrev near_dock : EvalState floats
near_dock = record {
  latest =
      (
        codes "robot/r1/local/human_present",
        object (field (codes "separation_distance") (number 1) end),
      )
      ∷ (codes "robot/r1/local/zone", zone_sample (codes "dock"))
      ∷ [];
  zones = [];
  prev = ((codes "robot/r1/local/zone", 0, 1), false) ∷ [];
  last_rules = some 1;
  timestamps = [];
  staleness_timeout = none;
}

abbrev on_record : ℕ → Trigger floats → Option Bool
on_record r t = lookup {K = PrevKey} (t.topic, r, 1) near_dock.prev

semantic_tick_example :
    (tick 5 near_dock compiled).1
    ≡ meant (snapshot 5 near_dock) [] on_record (codes "r1") 0 document.rules compiled.rules
unfolding compile flo.Semantic.Compile.validate flo.Semantic.Compile.validate_actions
    flo.Semantic.Action.try_from_action build_when_expr flo.Semantic.When.check_flat
    flo.Semantic.When.leaf_triggers flo.Semantic.When.push_leaf flo.Topic.Builders.robot_local
    flo.Topic.Name.try_new flo.Topic.Grammar.matches_one_of flo.Base.split
    flo.Topic.Grammar.canonicalize flo.Base.str_eq flo.Base.lookup flo.Semantic.When.combine
    flo.Semantic.When.leaves_then flo.Semantic.Compile.compile_rules flo.Base.strip_prefix
    flo.Semantic.Action.compile_action_from_spec flo.Semantic.Compile.compile_actions
    flo.Semantic.Compile.place flo.Semantic.Compile.validate_rules flo.Semantic.Lower.and_group
    lower flo.Semantic.Lower.or_element flo.Semantic.When.push_end flo.Topic.Builders.stop_cmd
    flo.Topic.Grammar.canonical_rest flo.Topic.Grammar.canonical_strip flo.Topic.Grammar.cut
semantic_tick_example =
    semantic_tick document (codes "r1") compiled 5 near_dock on_record refl refl
      (((λ e. cc), tt), ((λ e. refl), ((λ e. refl), tt)), tt)
