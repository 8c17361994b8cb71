-- ===== src/Topic/Validity.antt =====
-- src/topic.rs: what the validators accept, and that what they accept is stable.
use flo.Base.{
  ◌≡◌, refl, ap, true, false, none, List, [], ◌∷◌, ◌++◌, Str, codes, join, split, split-join, Lacks,
  All, is_empty, strip_prefix, str_eq, arith, ok, expect,
}
use flo.Topic.Grammar.{canonicalize, canonical_strip, matches_one_of}
use flo.Topic.Name
use flo.Topic.Name.{Topic}
use flo.Topic.Builders.{
  robot_local, rules_key, liveliness_key, signal_presence_key, signal_offer_key, signal_answer_key,
  signal_ice_key, registration_response, deregistration_response, heartbeat_alert, ruleset_pub_key,
  stop_cmd, lidar_scan, zone_entered, zone_cleared,
}

-- A canonical text whose parts match is accepted as it stands.
pub try_new-join :
    (s p : Str) (ps : List Str)
    → s ≡ join b'/' p ps
    → All (Lacks b'/') (p ∷ ps)
    → strip_prefix (codes "robot-") s ≡ none
    → is_empty s ≡ false
    → matches_one_of (p ∷ ps) ≡ true
    → Name.try_new s ≡ ok (record { text = s })
unfolding Name.try_new canonicalize
try_new-join s p ps e lacks plain full m =
    rw (full, plain, canonical_strip)
      (ground (arith, ap (split b'/') e, split-join b'/' p ps lacks))

pub rules_key_lem {ℓ} :
    {E : Type ℓ} (id : Str)
    → Lacks b'/' id
    → rules_key {E = E} id ≡ ok (record { text = codes "robot/" ++ (id ++ codes "/local/rules") })
unfolding rules_key join strip_prefix matches_one_of str_eq
rules_key_lem id h = ap expect (
    try_new-join (codes "robot/" ++ (id ++ codes "/local/rules")) (codes "robot")
      (id ∷ codes "local" ∷ codes "rules" ∷ []) refl (refl, (h, (refl, (refl, tt)))) refl refl refl)

pub liveliness_key_lem {ℓ} :
    {E : Type ℓ} (id : Str)
    → Lacks b'/' id
    → liveliness_key {E = E} id
      ≡ ok (record { text = codes "robot/" ++ (id ++ codes "/client/liveliness") })
unfolding liveliness_key join strip_prefix matches_one_of str_eq
liveliness_key_lem id h = ap expect (
    try_new-join (codes "robot/" ++ (id ++ codes "/client/liveliness")) (codes "robot")
      (id ∷ codes "client" ∷ codes "liveliness" ∷ []) refl (refl, (h, (refl, (refl, tt)))) refl refl
      refl)

pub signal_presence_key_lem {ℓ} :
    {E : Type ℓ} (id : Str)
    → Lacks b'/' id
    → signal_presence_key {E = E} id
      ≡ ok (record { text = codes "robot/" ++ (id ++ codes "/signal/presence") })
unfolding signal_presence_key join strip_prefix matches_one_of str_eq
signal_presence_key_lem id h = ap expect (
    try_new-join (codes "robot/" ++ (id ++ codes "/signal/presence")) (codes "robot")
      (id ∷ codes "signal" ∷ codes "presence" ∷ []) refl (refl, (h, (refl, (refl, tt)))) refl refl
      refl)

pub registration_response_lem {ℓ} :
    {E : Type ℓ} (id : Str)
    → Lacks b'/' id
    → registration_response {E = E} id
      ≡ ok (record { text = codes "fleet/registration/response/" ++ id })
unfolding registration_response join strip_prefix matches_one_of str_eq
registration_response_lem id h = ap expect (
    try_new-join (codes "fleet/registration/response/" ++ id) (codes "fleet")
      (codes "registration" ∷ codes "response" ∷ id ∷ []) refl (refl, (refl, (refl, (h, tt)))) refl
      refl refl)

pub deregistration_response_lem {ℓ} :
    {E : Type ℓ} (id : Str)
    → Lacks b'/' id
    → deregistration_response {E = E} id
      ≡ ok (record { text = codes "fleet/deregistration/response/" ++ id })
unfolding deregistration_response join strip_prefix matches_one_of str_eq
deregistration_response_lem id h = ap expect (
    try_new-join (codes "fleet/deregistration/response/" ++ id) (codes "fleet")
      (codes "deregistration" ∷ codes "response" ∷ id ∷ []) refl (refl, (refl, (refl, (h, tt))))
      refl refl refl)

pub heartbeat_alert_lem {ℓ} :
    {E : Type ℓ} (id : Str)
    → Lacks b'/' id
    → heartbeat_alert {E = E} id ≡ ok (record { text = codes "fleet/alerts/heartbeat/" ++ id })
unfolding heartbeat_alert join strip_prefix matches_one_of str_eq
heartbeat_alert_lem id h = ap expect (
    try_new-join (codes "fleet/alerts/heartbeat/" ++ id) (codes "fleet")
      (codes "alerts" ∷ codes "heartbeat" ∷ id ∷ []) refl (refl, (refl, (refl, (h, tt)))) refl refl
      refl)

pub stop_cmd_lem {ℓ} :
    {E : Type ℓ} (id : Str)
    → Lacks b'/' id
    → stop_cmd {E = E} id ≡ ok (record { text = codes "stop/" ++ (id ++ codes "/cmd") })
unfolding stop_cmd join strip_prefix matches_one_of str_eq
stop_cmd_lem id h = ap expect (
    try_new-join (codes "stop/" ++ (id ++ codes "/cmd")) (codes "stop") (id ∷ codes "cmd" ∷ []) refl
      (refl, (h, (refl, tt))) refl refl refl)

pub lidar_scan_lem {ℓ} :
    {E : Type ℓ} (id : Str)
    → Lacks b'/' id
    → lidar_scan {E = E} id ≡ ok (record { text = codes "lidar/" ++ (id ++ codes "/scan") })
unfolding lidar_scan join strip_prefix matches_one_of str_eq
lidar_scan_lem id h = ap expect (
    try_new-join (codes "lidar/" ++ (id ++ codes "/scan")) (codes "lidar") (id ∷ codes "scan" ∷ [])
      refl (refl, (h, (refl, tt))) refl refl refl)

pub zone_entered_lem {ℓ} :
    {E : Type ℓ} (id : Str)
    → Lacks b'/' id
    → zone_entered {E = E} id ≡ ok (record { text = codes "zone/" ++ (id ++ codes "/entered") })
unfolding zone_entered join strip_prefix matches_one_of str_eq
zone_entered_lem id h = ap expect (
    try_new-join (codes "zone/" ++ (id ++ codes "/entered")) (codes "zone")
      (id ∷ codes "entered" ∷ []) refl (refl, (h, (refl, tt))) refl refl refl)

pub zone_cleared_lem {ℓ} :
    {E : Type ℓ} (id : Str)
    → Lacks b'/' id
    → zone_cleared {E = E} id ≡ ok (record { text = codes "zone/" ++ (id ++ codes "/cleared") })
unfolding zone_cleared join strip_prefix matches_one_of str_eq
zone_cleared_lem id h = ap expect (
    try_new-join (codes "zone/" ++ (id ++ codes "/cleared")) (codes "zone")
      (id ∷ codes "cleared" ∷ []) refl (refl, (h, (refl, tt))) refl refl refl)

pub robot_local_lem {ℓ} :
    {E : Type ℓ} (id other : Str)
    → Lacks b'/' id
    → Lacks b'/' other
    → robot_local {E = E} id other
      ≡ ok (record { text = codes "robot/" ++ (id ++ (codes "/local/" ++ other)) })
unfolding robot_local join strip_prefix matches_one_of str_eq
robot_local_lem id other h k = ap expect (
    try_new-join (codes "robot/" ++ (id ++ (codes "/local/" ++ other))) (codes "robot")
      (id ∷ codes "local" ∷ other ∷ []) refl (refl, (h, (refl, (k, tt)))) refl refl refl)

pub signal_offer_key_lem {ℓ} :
    {E : Type ℓ} (id other : Str)
    → Lacks b'/' id
    → Lacks b'/' other
    → signal_offer_key {E = E} id other
      ≡ ok (record {
        text = codes "robot/" ++ (id ++ (codes "/signal/" ++ (other ++ codes "/offer")));
      })
unfolding signal_offer_key join strip_prefix matches_one_of str_eq
signal_offer_key_lem id other h k = ap expect (
    try_new-join (codes "robot/" ++ (id ++ (codes "/signal/" ++ (other ++ codes "/offer"))))
      (codes "robot") (id ∷ codes "signal" ∷ other ∷ codes "offer" ∷ []) refl
      (refl, (h, (refl, (k, (refl, tt))))) refl refl refl)

pub signal_answer_key_lem {ℓ} :
    {E : Type ℓ} (id other : Str)
    → Lacks b'/' id
    → Lacks b'/' other
    → signal_answer_key {E = E} id other
      ≡ ok (record {
        text = codes "robot/" ++ (id ++ (codes "/signal/" ++ (other ++ codes "/answer")));
      })
unfolding signal_answer_key join strip_prefix matches_one_of str_eq
signal_answer_key_lem id other h k = ap expect (
    try_new-join (codes "robot/" ++ (id ++ (codes "/signal/" ++ (other ++ codes "/answer"))))
      (codes "robot") (id ∷ codes "signal" ∷ other ∷ codes "answer" ∷ []) refl
      (refl, (h, (refl, (k, (refl, tt))))) refl refl refl)

pub signal_ice_key_lem {ℓ} :
    {E : Type ℓ} (id other : Str)
    → Lacks b'/' id
    → Lacks b'/' other
    → signal_ice_key {E = E} id other
      ≡ ok (record {
        text = codes "robot/" ++ (id ++ (codes "/signal/" ++ (other ++ codes "/ice")));
      })
unfolding signal_ice_key join strip_prefix matches_one_of str_eq
signal_ice_key_lem id other h k = ap expect (
    try_new-join (codes "robot/" ++ (id ++ (codes "/signal/" ++ (other ++ codes "/ice"))))
      (codes "robot") (id ∷ codes "signal" ∷ other ∷ codes "ice" ∷ []) refl
      (refl, (h, (refl, (k, (refl, tt))))) refl refl refl)

pub ruleset_pub_key_lem {ℓ} :
    {E : Type ℓ} (id other : Str)
    → Lacks b'/' id
    → Lacks b'/' other
    → ruleset_pub_key {E = E} id other
      ≡ ok (record { text = codes "fleet/" ++ (id ++ (codes "/ruleset/" ++ other)) })
unfolding ruleset_pub_key join strip_prefix matches_one_of str_eq
ruleset_pub_key_lem id other h k = ap expect (
    try_new-join (codes "fleet/" ++ (id ++ (codes "/ruleset/" ++ other))) (codes "fleet")
      (id ∷ codes "ruleset" ∷ other ∷ []) refl (refl, (h, (refl, (k, tt)))) refl refl
      (ground arith))
