-- ===== src/Semantic/Model.antt =====
-- src/semantic.rs: the documents, the errors and the two intermediate forms. An error is its code
-- and its field path; the message for the reader is left out.
use flo.Base.{ℕ, Bool, Option, none, some, List, Str, Map}
use flo.Rules.Floats.{Floats}
use flo.Rules.Json.{Value}
use flo.Rules.Model.{Qos, Trigger}

pub data ErrorCode : Type 0 where
  parse no_action_verb invalid_distance unknown_zone missing_field non_primitive_payload
        invalid_ruleset_name invalid_topic empty_when unrepresentable_nesting :
      ErrorCode

pub record SemanticError : Type 0 where
  pub code : ErrorCode
  pub field_path : Option Str

unfoldable pub error : ErrorCode → SemanticError
error code = record { code = code; field_path = none }

unfoldable pub with_path : SemanticError → Str → SemanticError
with_path e path = record e { field_path = some path }

pub record Site : Type 0 where
  pub id : Str
  pub frame : Str

pub record Zone (F : Floats) : Type 0 where
  pub shape : Str
  pub x : F.F64
  pub y : F.F64
  pub w : F.F64
  pub h : F.F64

pub record NearSpec (F : Floats) : Type 0 where
  pub entity : Str
  pub dist : F.F64

-- The flat conditions of a `when`.
pub record Flat (F : Floats) : Type 0 where
  pub in_zone : Option Str
  pub not_in_zone : Option Str
  pub near_human : Option F.F64
  pub not_near_human : Option F.F64
  pub near : Option (NearSpec F)
  pub role : Option Str

-- A `when`: its flat conditions, and the nested ones under `all` and under `any`.
mutual
  pub data SemanticWhen (F : Floats) : Type 0 where
    when : Flat F → Whens F → Whens F → SemanticWhen F

  pub data Whens (F : Floats) : Type 0 where
    nil : Whens F
    cons : SemanticWhen F → Whens F → Whens F

pub record SemanticAction (F : Floats) : Type 0 where
  pub estop : Bool
  pub slow_to : Option F.F64
  pub resume : Bool
  pub topic : Option Str
  pub payload : Option (Value F)
  pub qos : Qos

pub record SemanticRule (F : Floats) : Type 0 where
  pub name : Str
  pub when : SemanticWhen F
  pub actions : List (SemanticAction F)

pub record RulesManifest (F : Floats) : Type 0 where
  pub site : Site
  pub zones : Map Str (Zone F)
  pub rules : List (SemanticRule F)

mutual
  pub data WhenExpr (F : Floats) : Type 0 where
    all any : Exprs F → WhenExpr F
    leaf : Trigger F → WhenExpr F

  pub data Exprs (F : Floats) : Type 0 where
    nil : Exprs F
    cons : WhenExpr F → Exprs F → Exprs F

pub data ActionSpec (F : Floats) : Type 0 where
  estop : ActionSpec F
  slow_to : F.F64 → ActionSpec F
  resume : ActionSpec F
  raw : Str → Value F → ActionSpec F

pub record SemanticRulesetRule (F : Floats) : Type 0 where
  pub rule_name : Str
  pub when : SemanticWhen F
  pub actions : List (SemanticAction F)

pub record SemanticRuleset (F : Floats) : Type 0 where
  pub ruleset_name : Str
  pub version : ℕ
  pub robot_owner : Str
  pub site : Site
  pub zones : Map Str (Zone F)
  pub rules : List (SemanticRulesetRule F)
