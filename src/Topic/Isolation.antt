-- ===== src/Topic/Isolation.antt =====
-- src/topic.rs: the topics that the builders make, and the names that they make them of.
use flo.Base.{
  ◌≡◌, ◌↔◌, refl, sym, ap, ◌∙◌, Option, none, some, List, [], ◌∷◌, Str, codes, str_eq, Lacks, All,
  join, split, split-join, if◌then◌else◌, Outcome, ok, ok-injective,
}
use flo.Topic.Name.{Topic}
use flo.Topic.Builders.{
  robot_local, rules_key, liveliness_key, signal_presence_key, signal_offer_key, signal_answer_key,
  signal_ice_key, registration_response, deregistration_response, heartbeat_alert, ruleset_pub_key,
  stop_cmd, lidar_scan, zone_entered, zone_cleared,
}
use flo.Topic.Validity.{
  robot_local_lem, liveliness_key_lem, signal_presence_key_lem, signal_offer_key_lem,
  signal_answer_key_lem, signal_ice_key_lem, registration_response_lem, deregistration_response_lem,
  heartbeat_alert_lem, ruleset_pub_key_lem, stop_cmd_lem, lidar_scan_lem, zone_entered_lem,
  zone_cleared_lem,
}

-- What a topic is for.
pub data Address : Type 0 where
  local : Str → Str → Address
  liveliness : Str → Address
  presence : Str → Address
  offer answer ice : Str → Str → Address
  registered deregistered heartbeat : Str → Address
  fleet_rules : Str → Str → Address
  stop lidar entered cleared : Str → Address

-- The builder of each.
abbrev pub topic_of {ℓ} : {E : Type ℓ} → Address → Outcome E Topic
topic_of (local id resource) = robot_local id resource
topic_of (liveliness id) = liveliness_key id
topic_of (presence id) = signal_presence_key id
topic_of (offer from to) = signal_offer_key from to
topic_of (answer from to) = signal_answer_key from to
topic_of (ice from to) = signal_ice_key from to
topic_of (registered id) = registration_response id
topic_of (deregistered id) = deregistration_response id
topic_of (heartbeat id) = heartbeat_alert id
topic_of (fleet_rules site name) = ruleset_pub_key site name
topic_of (stop scope) = stop_cmd scope
topic_of (lidar scope) = lidar_scan scope
topic_of (entered zone) = zone_entered zone
topic_of (cleared zone) = zone_cleared zone

-- The names that it is built of.
abbrev names : Address → List Str
names (local id resource) = id ∷ resource ∷ []
names (offer from to) = from ∷ to ∷ []
names (answer from to) = from ∷ to ∷ []
names (ice from to) = from ∷ to ∷ []
names (fleet_rules site name) = site ∷ name ∷ []
names (liveliness id) = id ∷ []
names (presence id) = id ∷ []
names (registered id) = id ∷ []
names (deregistered id) = id ∷ []
names (heartbeat id) = id ∷ []
names (stop scope) = scope ∷ []
names (lidar scope) = scope ∷ []
names (entered zone) = zone ∷ []
names (cleared zone) = zone ∷ []

-- No name holds a slash.
abbrev pub IsPlain : Address → Type 0
IsPlain a = All (Lacks b'/') (names a)

-- A reading of the segments of a topic, with no look at how they were built.
unfoldable read_signal : Str → Str → Str → Option Address
read_signal from to verb =
    if str_eq verb (codes "offer")
    then some (offer from to)
    else if str_eq verb (codes "answer")
    then some (answer from to)
    else if str_eq verb (codes "ice")
    then some (ice from to)
    else none

unfoldable read_robot : Str → Str → Str → Option Address
read_robot id kind last =
    if str_eq kind (codes "local")
    then some (local id last)
    else if str_eq kind (codes "client")
    then some (liveliness id)
    else some (presence id)

unfoldable read_fleet : Str → Str → Str → Option Address
read_fleet a b last =
    if str_eq b (codes "ruleset")
    then some (fleet_rules a last)
    else if str_eq b (codes "heartbeat")
    then some (heartbeat last)
    else if str_eq a (codes "registration")
    then some (registered last)
    else some (deregistered last)

unfoldable read_scope : Str → Str → Str → Option Address
read_scope head scope last =
    if str_eq head (codes "stop")
    then some (stop scope)
    else if str_eq head (codes "lidar")
    then some (lidar scope)
    else if str_eq last (codes "entered")
    then some (entered scope)
    else some (cleared scope)

unfoldable read : List Str → Option Address
unfolding read_signal read_robot read_fleet read_scope
read (a ∷ b ∷ c ∷ []) = read_scope a b c
read (a ∷ b ∷ c ∷ d ∷ []) = if str_eq a (codes "robot") then read_robot b c d else read_fleet b c d
read (a ∷ b ∷ c ∷ d ∷ e ∷ []) = read_signal b d e
read _ = none

some-injective : {a b : Address} → some a ≡ some b → a ≡ b
some-injective h = cc

abbrev IsRead : Address → Topic → Type 0
IsRead a t = read (split b'/' t.text) ≡ some a

-- A topic that is read as what it was built for.
read_lem {ℓ} :
    {E : Type ℓ} (p : Str) (ps : List Str) (a : Address)
    → topic_of {E = E} a ≡ ok (record { text = join b'/' p ps })
    → All (Lacks b'/') (p ∷ ps)
    → read (p ∷ ps) ≡ some a
    → (t : Topic) × (topic_of {E = E} a ≡ ok t) × IsRead a t
read_lem p ps a made lacks h =
    (record { text = join b'/' p ps }, made, ap read (split-join b'/' p ps lacks) ∙ h)

topic_of_lem {ℓ} :
    {E : Type ℓ} (a : Address) → IsPlain a → (t : Topic) × (topic_of {E = E} a ≡ ok t) × IsRead a t
unfolding read read_signal read_robot read_fleet read_scope str_eq join
topic_of_lem (local id r) (h, (k, u)) =
    read_lem (codes "robot") (id ∷ codes "local" ∷ r ∷ []) (local id r) (robot_local_lem id r h k)
      (refl, (h, (refl, (k, tt)))) refl
topic_of_lem (liveliness id) (h, u) =
    read_lem (codes "robot") (id ∷ codes "client" ∷ codes "liveliness" ∷ []) (liveliness id)
      (liveliness_key_lem id h) (refl, (h, (refl, (refl, tt)))) refl
topic_of_lem (presence id) (h, u) =
    read_lem (codes "robot") (id ∷ codes "signal" ∷ codes "presence" ∷ []) (presence id)
      (signal_presence_key_lem id h) (refl, (h, (refl, (refl, tt)))) refl
topic_of_lem (offer from to) (h, (k, u)) =
    read_lem (codes "robot") (from ∷ codes "signal" ∷ to ∷ codes "offer" ∷ []) (offer from to)
      (signal_offer_key_lem from to h k) (refl, (h, (refl, (k, (refl, tt))))) refl
topic_of_lem (answer from to) (h, (k, u)) =
    read_lem (codes "robot") (from ∷ codes "signal" ∷ to ∷ codes "answer" ∷ []) (answer from to)
      (signal_answer_key_lem from to h k) (refl, (h, (refl, (k, (refl, tt))))) refl
topic_of_lem (ice from to) (h, (k, u)) =
    read_lem (codes "robot") (from ∷ codes "signal" ∷ to ∷ codes "ice" ∷ []) (ice from to)
      (signal_ice_key_lem from to h k) (refl, (h, (refl, (k, (refl, tt))))) refl
topic_of_lem (registered id) (h, u) =
    read_lem (codes "fleet") (codes "registration" ∷ codes "response" ∷ id ∷ []) (registered id)
      (registration_response_lem id h) (refl, (refl, (refl, (h, tt)))) refl
topic_of_lem (deregistered id) (h, u) =
    read_lem (codes "fleet") (codes "deregistration" ∷ codes "response" ∷ id ∷ []) (deregistered id)
      (deregistration_response_lem id h) (refl, (refl, (refl, (h, tt)))) refl
topic_of_lem (heartbeat id) (h, u) =
    read_lem (codes "fleet") (codes "alerts" ∷ codes "heartbeat" ∷ id ∷ []) (heartbeat id)
      (heartbeat_alert_lem id h) (refl, (refl, (refl, (h, tt)))) refl
topic_of_lem (fleet_rules site name) (h, (k, u)) =
    read_lem (codes "fleet") (site ∷ codes "ruleset" ∷ name ∷ []) (fleet_rules site name)
      (ruleset_pub_key_lem site name h k) (refl, (h, (refl, (k, tt)))) refl
topic_of_lem (stop scope) (h, u) =
    read_lem (codes "stop") (scope ∷ codes "cmd" ∷ []) (stop scope) (stop_cmd_lem scope h)
      (refl, (h, (refl, tt))) refl
topic_of_lem (lidar scope) (h, u) =
    read_lem (codes "lidar") (scope ∷ codes "scan" ∷ []) (lidar scope) (lidar_scan_lem scope h)
      (refl, (h, (refl, tt))) refl
topic_of_lem (entered zone) (h, u) =
    read_lem (codes "zone") (zone ∷ codes "entered" ∷ []) (entered zone) (zone_entered_lem zone h)
      (refl, (h, (refl, tt))) refl
topic_of_lem (cleared zone) (h, u) =
    read_lem (codes "zone") (zone ∷ codes "cleared" ∷ []) (cleared zone) (zone_cleared_lem zone h)
      (refl, (h, (refl, tt))) refl

-- Isolation: where no name holds a slash, each of the fourteen builders of `Address` makes a topic, and
-- two of them make the same topic only if they are one and have been given the same names. The
-- fifteenth, `rules_key`, is the builder of local topics for the resource `rules`.
pub topic_of-injective {ℓ} :
    {E : Type ℓ} (a b : Address)
    → IsPlain a
    → IsPlain b
    → ((t : Topic) × (topic_of {E = E} a ≡ ok t))
      × ((topic_of {E = E} a ≡ topic_of {E = E} b) ↔ (a ≡ b))
      × ((id : Str) → rules_key {E = E} id ≡ topic_of {E = E} (local id (codes "rules")))
unfolding rules_key robot_local
topic_of-injective {E = E} a b h k =
    let (t, made, r) = topic_of_lem {E = E} a h in
    let (u, made', r') = topic_of_lem {E = E} b k in
    (
      (t, made),
      (λ same. go t u r r' (ok-injective (sym made ∙ (same ∙ made'))), λ e. ap topic_of e),
      λ id. refl,
    )
  where
    go : (t u : Topic) → IsRead a t → IsRead b u → t ≡ u → a ≡ b
    go t u r r' e = some-injective (sym r ∙ (ap (λ x. read (split b'/' x.text)) e ∙ r'))
