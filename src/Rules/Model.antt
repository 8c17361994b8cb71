-- ===== src/Rules/Model.antt =====
-- src/rules.rs: rules, their triggers and predicates, and the actions that they fire.
use flo.Base.{ℕ, Bool, Option, List, Str}
use flo.Rules.Floats.{Floats, ℤ}
use flo.Rules.Json.{Value}

pub data Qos : Type 0 where
  reliable best_effort : Qos

pub data Op : Type 0 where
  eq ne lt gt le ge same_zone_as : Op

pub data PrimitiveRef : Type 0 where
  site zone robot human_presence : PrimitiveRef
  proximity : Str → PrimitiveRef

pub data EvalMode : Type 0 where
  edge level : EvalMode

pub data Operand (F : Floats) : Type 0 where
  bool : Bool → Operand F
  int : ℤ → Operand F
  float : F.F64 → Operand F
  str : Str → Operand F
  field : Str → Operand F
  prim : PrimitiveRef → Operand F

mutual
  pub data Predicate (F : Floats) : Type 0 where
    comparison : Op → Operand F → Operand F → Predicate F
    and or : Predicates F → Predicate F
    not : Predicate F → Predicate F

  pub data Predicates (F : Floats) : Type 0 where
    nil : Predicates F
    cons : Predicate F → Predicates F → Predicates F

pub record Action (F : Floats) : Type 0 where
  pub topic : Str
  pub qos : Qos
  pub payload : Value F

pub record Trigger (F : Floats) : Type 0 where
  pub topic : Str
  pub pred : Option (Predicate F)
  pub mode : EvalMode

pub record When (F : Floats) : Type 0 where
  pub all : List (Trigger F)
  pub any : List (Trigger F)

pub record Rule (F : Floats) : Type 0 where
  pub name : Str
  pub when : When F
  pub actions : List (Action F)

pub record Rules (F : Floats) : Type 0 where
  pub rules : List (Rule F)

pub record Ruleset (F : Floats) : Type 0 where
  pub ruleset_name : Str
  pub version : ℕ
  pub robot_owner : Str
  pub rules : List (Rule F)
