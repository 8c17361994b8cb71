-- ===== src/Engine/Eval.antt =====
-- src/engine.rs: evaluation of typed predicates against a JSON payload.
use Prim.Native.Nat.{Ordering, lt, eq, gt, compare}
use flo.Base.{
  Bool, true, false, not, ◌&&◌, ◌||◌, Option, none, some, [], ◌∷◌, Str, codes, str_eq,
  if◌then◌else◌,
}
use flo.Rules.Floats.{Floats, is_lt, is_gt, is_le, is_ge}
use flo.Rules.Json.{
  Value, null, bool, number, string, array, object, Items, nil, cons, Fields, end, field, get,
  as_str,
}
use flo.Rules.Model.{
  Op, Operand, PrimitiveRef, zone, robot, human_presence, proximity, site, Predicate, Predicates,
  comparison, and, or,
}
use flo.Engine.Zones.{Zones, share_zone}

-- `str::cmp`: the order of the bytes is that of the code points.
unfoldable pub str_cmp : Str → Str → Ordering
str_cmp [] [] = eq
str_cmp [] (d ∷ t) = lt
str_cmp (c ∷ s) [] = gt
str_cmp (c ∷ s) (d ∷ t) =
    let rest = str_cmp s t in elim (compare c d) [ lt ↦ lt | gt ↦ gt | eq ↦ rest ]

abbrev pub bool_cmp : Bool → Bool → Ordering
bool_cmp false true = lt
bool_cmp true false = gt
bool_cmp _ _ = eq

abbrev pub bool_eq : Bool → Bool → Bool
bool_eq true b = b
bool_eq false b = not b

unfoldable pub prim_field : PrimitiveRef → Str
prim_field zone = codes "zone_id"
prim_field robot = codes "role"
prim_field human_presence = codes "separation_distance"
prim_field (proximity entity) = codes "separation_distance"
prim_field site = codes "site_id"

unfoldable pub same_zone : Option Str → Option Str → Zones → Bool
same_zone (some a) (some b) zones = share_zone zones a b
same_zone _ _ zones = false

close : (F : Floats) → Option F.F64 → Option F.F64 → Bool
close F (some x) (some y) = is_lt (F.partial_cmp (F.abs (F.sub x y)) F.epsilon)
close F _ _ = false

number_cmp : (F : Floats) → Option F.F64 → Option F.F64 → Option Ordering
number_cmp F (some x) (some y) = F.partial_cmp x y
number_cmp F _ _ = none

module _ {F : Floats} where
  -- `==` of serde_json's values.
  unfoldable mutual
    pub value_eq : Value F → Value F → Bool
    value_eq null null = true
    value_eq (bool a) (bool b) = bool_eq a b
    value_eq (number a) (number b) = F.number_eq a b
    value_eq (string a) (string b) = str_eq a b
    value_eq (array a) (array b) = items_eq a b
    value_eq (object a) (object b) = fields_eq a b
    value_eq _ _ = false

    pub items_eq : Items F → Items F → Bool
    items_eq nil nil = true
    items_eq (cons a as') (cons b bs) = value_eq a b && items_eq as' bs
    items_eq _ _ = false

    pub fields_eq : Fields F → Fields F → Bool
    fields_eq end end = true
    fields_eq (field j a as') (field k b bs) = str_eq j k && (value_eq a b && fields_eq as' bs)
    fields_eq _ _ = false

  unfoldable pub values_equal : Value F → Value F → Bool
  unfolding value_eq close
  values_equal (number x) (number y) = close F (F.as_f64 x) (F.as_f64 y)
  values_equal a b = value_eq a b

  unfoldable pub json_cmp : Value F → Value F → Option Ordering
  unfolding number_cmp
  json_cmp (number x) (number y) = number_cmp F (F.as_f64 x) (F.as_f64 y)
  json_cmp (string x) (string y) = some (str_cmp x y)
  json_cmp (bool x) (bool y) = some (bool_cmp x y)
  json_cmp _ _ = none

  abbrev pub string_of : Option (Value F) → Option Str
  string_of none = none
  string_of (some v) = as_str v

  -- `payload.get("peer_id").and_then(as_str) == Some(entity)`
  unfoldable pub is_peer : Str → Value F → Bool
  is_peer entity payload = elim (string_of (get (codes "peer_id") payload)) [
    | none ↦ false
    | some peer ↦ str_eq peer entity
  ]

  unfoldable pub resolve_prim : PrimitiveRef → Value F → Option (Value F)
  unfolding is_peer prim_field
  resolve_prim (proximity entity) payload =
      if is_peer entity payload then get (prim_field (proximity entity)) payload else none
  resolve_prim p payload = get (prim_field p) payload

  abbrev pub number_of : Option F.Number → Option (Value F)
  number_of none = none
  number_of (some n) = some (number n)

  unfoldable pub resolve_operand : Operand F → Value F → Option (Value F)
  unfolding resolve_prim
  resolve_operand (Operand.bool v) payload = some (bool v)
  resolve_operand (Operand.int v) payload = some (number (F.from_int v))
  resolve_operand (Operand.float v) payload = number_of (F.from_f64 v)
  resolve_operand (Operand.str v) payload = some (string v)
  resolve_operand (Operand.field name) payload = get name payload
  resolve_operand (Operand.prim p) payload = resolve_prim p payload

  unfoldable pub eval_comparison : Op → Value F → Value F → Zones → Bool
  unfolding same_zone
  eval_comparison Op.eq l r zones = values_equal l r
  eval_comparison Op.ne l r zones = not (values_equal l r)
  eval_comparison Op.lt l r zones = is_lt (json_cmp l r)
  eval_comparison Op.gt l r zones = is_gt (json_cmp l r)
  eval_comparison Op.le l r zones = is_le (json_cmp l r)
  eval_comparison Op.ge l r zones = is_ge (json_cmp l r)
  eval_comparison Op.same_zone_as l r zones = same_zone (as_str l) (as_str r) zones

  unfoldable pub eval_operands : Op → Option (Value F) → Option (Value F) → Zones → Bool
  eval_operands op (some l) (some r) zones = eval_comparison op l r zones
  eval_operands op _ _ zones = false

  unfoldable mutual
    pub eval_tree : Predicate F → Value F → Zones → Bool
    eval_tree (comparison op lhs rhs) payload zones =
        eval_operands op (resolve_operand lhs payload) (resolve_operand rhs payload) zones
    eval_tree (and v) payload zones = eval_every v payload zones
    eval_tree (or v) payload zones = eval_some v payload zones
    eval_tree (Predicate.not b) payload zones = not (eval_tree b payload zones)

    pub eval_every : Predicates F → Value F → Zones → Bool
    eval_every Predicates.nil payload zones = true
    eval_every (Predicates.cons p ps) payload zones =
        eval_tree p payload zones && eval_every ps payload zones

    pub eval_some : Predicates F → Value F → Zones → Bool
    eval_some Predicates.nil payload zones = false
    eval_some (Predicates.cons p ps) payload zones =
        eval_tree p payload zones || eval_some ps payload zones

  -- No predicate: the key expression alone decides.
  unfoldable pub eval_predicate : Option (Predicate F) → Value F → Zones → Bool
  eval_predicate none payload zones = true
  eval_predicate (some p) payload zones = eval_tree p payload zones
