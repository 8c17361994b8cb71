-- ===== src/Engine/Drain.antt =====
-- src/engine.rs: when a sample in the channel is taken in.
use flo.Base.{ℕ, suc, Bool, Option, List, [], ◌∷◌}
use flo.Rules.Floats.{Floats}
use flo.Rules.Json.{Value}
use flo.Topic.Pattern.{Pattern}
use flo.Engine.Run.{Engine, Event, received}

module _ {F : Floats} (to_vec : Value F → Option (List ℕ)) (accepts : Pattern → Bool) where
  -- How often the arm of a sample is taken.
  abbrev pub receptions : List (Event to_vec accepts) → ℕ
  receptions [] = 0
  receptions (received now ∷ vs) = suc (receptions vs)
  receptions (_ ∷ vs) = receptions vs
