-- ===== src/Auth/Session.antt =====
-- src/auth.rs: the configuration of the zenoh session and its access control. The serialisation to
-- JSON and `zenoh::Config` are parameters.
use flo.Base.{Str, codes, List, [], ◌∷◌, Outcome, ok, err, ok_or, ◌>>=◌, ◌>>◌, true}
use flo.Rules.Floats.{Floats}
use flo.Rules.Json.{Value, Items, bool, string, array, object, nil, cons, end, field}
use flo.Transport.Settings.{Zenoh, insert_all, loopback_settings}
use flo.Topic.Builders.{robot_namespace, rules_key}
use flo.Auth.Mode.{AuthMode, mtls, ed25519, AuthError, missing_credential, AuthConfig}
use flo.Auth.Credentials.{Files, check_credentials}

abbrev pub texts : {F : Floats} → List Str → Items F
texts [] = nil
texts (s ∷ ss) = cons (string s) (texts ss)

unfoldable pub access_control : {F : Floats} → Str → Str → Str → Value F
access_control robot_id own rules_key = object (
    field (codes "enabled") (bool true) (
      field (codes "default_permission") (string (codes "deny")) (
        field (codes "rules")
          (array (
            cons
              (object (
                field (codes "id") (string (codes "r_own")) (
                  field (codes "permission") (string (codes "allow")) (
                    field (codes "flows") (array (texts (codes "egress" ∷ codes "ingress" ∷ []))) (
                      field (codes "messages")
                        (array (texts (codes "put" ∷ codes "query" ∷ codes "reply" ∷ [])))
                        (field (codes "key_exprs") (array (texts (own ∷ rules_key ∷ []))) end))))))
              nil))
          (field (codes "subjects")
            (array (
              cons
                (object (
                  field (codes "id") (string robot_id)
                    (field (codes "cert_common_names") (array (texts (robot_id ∷ []))) end)))
                nil))
            (field (codes "policies")
              (array (
                cons
                  (object (
                    field (codes "id") (string (codes "p_own")) (
                      field (codes "rules") (array (texts (codes "r_own" ∷ [])))
                        (field (codes "subjects") (array (texts (robot_id ∷ []))) end))))
                  nil))
              end)))))

unfoldable pub acl_config : {F : Floats} → Str → Outcome AuthError (Value F)
acl_config robot_id = do
  own ← robot_namespace robot_id
  rules_key ← rules_key robot_id
  ok (access_control robot_id own.text rules_key.text)

module _ {F : Floats} (files : Files) (zenoh : Zenoh F) where
  abbrev pub tls_session : Str → Str → Str → Str → zenoh.Config
  tls_session cert key trust acl = insert_all zenoh zenoh.default (
      (codes "transport/auth/usrpwd", codes "false")
      ∷ (codes "transport/link/tls/enable_mtls", codes "true")
      ∷ (codes "transport/link/tls/certificate", cert)
      ∷ (codes "transport/link/tls/key", key)
      ∷ (codes "transport/link/tls/trust_anchors", trust)
      ∷ (codes "access_control", acl)
      ∷ [])

  abbrev pub mtls_session : AuthConfig → Str → Outcome AuthError zenoh.Config
  mtls_session self robot_id = do
    cert ← ok_or self.cert (missing_credential (codes "cert"))
    key ← ok_or self.key (missing_credential (codes "key"))
    trust ← ok_or self.trust (missing_credential (codes "trust"))
    cert_json ← ok_or (zenoh.quote cert) (missing_credential (codes "cert"))
    key_json ← ok_or (zenoh.quote key) (missing_credential (codes "key"))
    trust_json ← ok_or (zenoh.quote trust) (missing_credential (codes "trust"))
    acl ← acl_config robot_id
    acl_json ← ok_or (zenoh.to_string acl) (missing_credential (codes "trust"))
    ok (tls_session cert_json key_json trust_json acl_json)

  abbrev session_of : AuthConfig → Str → Outcome AuthError zenoh.Config
  session_of self robot_id = elim self.mode [
    | AuthMode.none ↦ ok (insert_all zenoh zenoh.default loopback_settings)
    | mtls ↦ mtls_session self robot_id
    | ed25519 ↦ err (missing_credential (codes "ed25519 handshake (not yet implemented)"))
  ]

  unfoldable pub zenoh_config : AuthConfig → Str → Outcome AuthError zenoh.Config
  unfolding check_credentials
  zenoh_config self robot_id = do check_credentials files self; session_of self robot_id
