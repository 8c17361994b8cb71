-- ===== src/Topic/Signals.antt =====
-- src/topic.rs: the patterns of the signalling subscriptions, at every robot id with no slash.
use flo.Base.{
  ◌≡◌, refl, ap, true, false, [], ◌∷◌, ◌++◌, Str, codes, join, split-join, Lacks, is_empty,
  contains_str, starts_with, str_eq, arith, ok, expect,
}
use flo.Topic.Grammar.{canonicalize, is_valid_pattern, wildcard_pattern}
use flo.Topic.Pattern
use flo.Topic.Pattern.{Pattern}
use flo.Topic.Builders.{signal_offer_pattern, signal_answer_pattern, signal_ice_pattern}

-- No empty segment comes in where a segment with no slash ends.
no_double :
    (id rest : Str)
    → Lacks b'/' id
    → contains_str (codes "//") rest ≡ false
    → contains_str (codes "//") (id ++ rest) ≡ false
unfolding contains_str starts_with
no_double [] rest h k = k
no_double (c ∷ id) rest h k = ground (arith, no_double id rest)

no_double_signal :
    (id rest : Str)
    → is_empty id ≡ false
    → Lacks b'/' id
    → contains_str (codes "//") rest ≡ false
    → contains_str (codes "//") (codes "robot/*/signal/" ++ (id ++ rest)) ≡ false
unfolding contains_str starts_with
no_double_signal [] rest full h k = cc
no_double_signal (c ∷ id) rest full h k = ground (arith, no_double id rest)

signal_pattern_lem :
    (id verb : Str)
    → is_empty id ≡ false
    → Lacks b'/' id
    → Lacks b'/' verb
    → contains_str (codes "//") (b'/' ∷ verb) ≡ false
    → is_valid_pattern (codes "robot" ∷ codes "*" ∷ codes "signal" ∷ id ∷ verb ∷ []) ≡ true
    → Pattern.try_new (codes "robot/*/signal/" ++ (id ++ b'/' ∷ verb))
      ≡ ok (record { text = codes "robot/*/signal/" ++ (id ++ b'/' ∷ verb) })
unfolding Pattern.try_new canonicalize join
signal_pattern_lem id verb full h k plain valid =
    let parts =
      split-join b'/' (codes "robot") (codes "*" ∷ codes "signal" ∷ id ∷ verb ∷ [])
        (refl, (refl, (refl, (h, (k, tt))))) in
    ground (arith, no_double_signal id (b'/' ∷ verb) full h plain, parts, valid)

module _ {ℓ} {E : Type ℓ} (id : Str) (full : is_empty id ≡ false) (h : Lacks b'/' id) where
  pub signal_offer_pattern_lem :
      signal_offer_pattern {E = E} id
      ≡ ok (record { text = codes "robot/*/signal/" ++ (id ++ codes "/offer") })
  unfolding signal_offer_pattern is_valid_pattern wildcard_pattern str_eq contains_str
  signal_offer_pattern_lem = ap expect (signal_pattern_lem id (codes "offer") full h refl refl refl)

  pub signal_answer_pattern_lem :
      signal_answer_pattern {E = E} id
      ≡ ok (record { text = codes "robot/*/signal/" ++ (id ++ codes "/answer") })
  unfolding signal_answer_pattern is_valid_pattern wildcard_pattern str_eq contains_str
  signal_answer_pattern_lem =
      ap expect (signal_pattern_lem id (codes "answer") full h refl refl refl)

  pub signal_ice_pattern_lem :
      signal_ice_pattern {E = E} id
      ≡ ok (record { text = codes "robot/*/signal/" ++ (id ++ codes "/ice") })
  unfolding signal_ice_pattern is_valid_pattern wildcard_pattern str_eq contains_str
  signal_ice_pattern_lem = ap expect (signal_pattern_lem id (codes "ice") full h refl refl refl)
