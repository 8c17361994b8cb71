-- ===== src/Topic/Builders.antt =====
-- src/topic.rs: the builders of concrete topics, and the patterns that the subscribers use. A
-- builder panics (`expect`) where its text is no valid topic.
use flo.Base.{Str, codes, ◌++◌, Outcome, expect}
use flo.Topic.Name
use flo.Topic.Name.{Topic}
use flo.Topic.Pattern
use flo.Topic.Pattern.{Pattern}
use flo.Topic.Acl
use flo.Topic.Acl.{AclExpr}

module _ {ℓ} {E : Type ℓ} where
  unfoldable pub robot_local : Str → Str → Outcome E Topic
  robot_local robot_id resource =
      expect (Name.try_new (codes "robot/" ++ (robot_id ++ (codes "/local/" ++ resource))))

  unfoldable pub rules_key : Str → Outcome E Topic
  rules_key robot_id = expect (Name.try_new (codes "robot/" ++ (robot_id ++ codes "/local/rules")))

  unfoldable pub liveliness_key : Str → Outcome E Topic
  liveliness_key robot_id =
      expect (Name.try_new (codes "robot/" ++ (robot_id ++ codes "/client/liveliness")))

  unfoldable pub signal_presence_key : Str → Outcome E Topic
  signal_presence_key robot_id =
      expect (Name.try_new (codes "robot/" ++ (robot_id ++ codes "/signal/presence")))

  unfoldable pub signal_offer_key : Str → Str → Outcome E Topic
  signal_offer_key self_id peer_id = expect (
      Name.try_new
        (codes "robot/" ++ (self_id ++ (codes "/signal/" ++ (peer_id ++ codes "/offer")))))

  unfoldable pub signal_answer_key : Str → Str → Outcome E Topic
  signal_answer_key self_id peer_id = expect (
      Name.try_new
        (codes "robot/" ++ (self_id ++ (codes "/signal/" ++ (peer_id ++ codes "/answer")))))

  unfoldable pub signal_ice_key : Str → Str → Outcome E Topic
  signal_ice_key self_id peer_id = expect (
      Name.try_new (codes "robot/" ++ (self_id ++ (codes "/signal/" ++ (peer_id ++ codes "/ice")))))

  unfoldable pub signal_offer_pattern : Str → Outcome E Pattern
  signal_offer_pattern self_id =
      expect (Pattern.try_new (codes "robot/*/signal/" ++ (self_id ++ codes "/offer")))

  unfoldable pub signal_answer_pattern : Str → Outcome E Pattern
  signal_answer_pattern self_id =
      expect (Pattern.try_new (codes "robot/*/signal/" ++ (self_id ++ codes "/answer")))

  unfoldable pub signal_ice_pattern : Str → Outcome E Pattern
  signal_ice_pattern self_id =
      expect (Pattern.try_new (codes "robot/*/signal/" ++ (self_id ++ codes "/ice")))

  unfoldable pub registration_response : Str → Outcome E Topic
  registration_response robot_id =
      expect (Name.try_new (codes "fleet/registration/response/" ++ robot_id))

  unfoldable pub deregistration_response : Str → Outcome E Topic
  deregistration_response robot_id =
      expect (Name.try_new (codes "fleet/deregistration/response/" ++ robot_id))

  unfoldable pub heartbeat_alert : Str → Outcome E Topic
  heartbeat_alert robot_id = expect (Name.try_new (codes "fleet/alerts/heartbeat/" ++ robot_id))

  unfoldable pub ruleset_pub_key : Str → Str → Outcome E Topic
  ruleset_pub_key site name =
      expect (Name.try_new (codes "fleet/" ++ (site ++ (codes "/ruleset/" ++ name))))

  unfoldable pub stop_cmd : Str → Outcome E Topic
  stop_cmd scope = expect (Name.try_new (codes "stop/" ++ (scope ++ codes "/cmd")))

  unfoldable pub lidar_scan : Str → Outcome E Topic
  lidar_scan scope = expect (Name.try_new (codes "lidar/" ++ (scope ++ codes "/scan")))

  unfoldable pub zone_entered : Str → Outcome E Topic
  zone_entered zone_id = expect (Name.try_new (codes "zone/" ++ (zone_id ++ codes "/entered")))

  unfoldable pub zone_cleared : Str → Outcome E Topic
  zone_cleared zone_id = expect (Name.try_new (codes "zone/" ++ (zone_id ++ codes "/cleared")))

  unfoldable pub robot_namespace : Str → Outcome E AclExpr
  robot_namespace robot_id = expect (Acl.try_new (codes "/robot/" ++ (robot_id ++ codes "/**")))

abbrev pub registration_key : Str
registration_key = codes "fleet/registration"

abbrev pub deregistration_key : Str
deregistration_key = codes "fleet/deregistration"

abbrev pub liveliness_pattern : Str
liveliness_pattern = codes "robot/*/client/liveliness"

abbrev pub signal_presence_pattern : Str
signal_presence_pattern = codes "robot/*/signal/presence"

abbrev pub ruleset_pub_pattern : Str
ruleset_pub_pattern = codes "fleet/*/ruleset/**"

abbrev pub zone_entered_pattern : Str
zone_entered_pattern = codes "zone/*/entered"

abbrev pub zone_cleared_pattern : Str
zone_cleared_pattern = codes "zone/*/cleared"
