-- ===== src/Auth/FailClosed.antt =====
-- src/auth.rs: the insertions that make the configuration of a session.
use flo.Base.{
  ok_or, ok-injective, Lacks, >>=-eq-ok, sym, ◌≡◌, refl, ◌⊎◌, inl, inr, false, ◌&&◌, not, Option,
  some, Str, codes, ◌++◌, arith, ok, panic, is_empty, contains_char, if◌then◌else◌, Bool-cases,
}
use flo.Rules.Floats.{Floats}
use flo.Rules.Json.{Value}
use flo.Transport.Settings.{Zenoh}
use flo.Auth.Mode.{AuthMode, mtls, ed25519, AuthError, AuthConfig}
use flo.Auth.Credentials.{Files, check_credentials}
use flo.Auth.Session.{access_control, acl_config, mtls_session, zenoh_config}
use flo.Topic.Namespace.{robot_namespace_lem}
use flo.Topic.Validity.{rules_key_lem}
use flo.Auth.Accepted.{HasCredentials, check_files_lem}

-- A robot id can be scoped exactly if it is not empty and has neither a slash nor a star.
abbrev pub IsProper : Str → Type 0
IsProper id = (is_empty id ≡ false) × Lacks b'/' id × Lacks b'*' id

-- The access list of a proper id grants exactly its own namespace and its own rules key; at any other
-- id the builder of the list panics.
acl_config_cases :
    {F : Floats} (robot_id : Str)
    → acl_config {F = F} robot_id ≡ (
        if not (is_empty robot_id)
          && (not (contains_char b'/' robot_id) && not (contains_char b'*' robot_id))
        then ok (
            access_control robot_id
              (codes "/robot/" ++ (robot_id ++ codes "/**"))
              (codes "robot/" ++ (robot_id ++ codes "/local/rules")))
        else panic)
unfolding acl_config
acl_config_cases robot_id = elim (Bool-cases (contains_char b'/' robot_id)) [
  | inl e ↦ ground (arith, robot_namespace_lem {E = AuthError} robot_id)
  | inr e ↦ ground (
    arith,
    robot_namespace_lem {E = AuthError} robot_id,
    rules_key_lem {E = AuthError} robot_id e,
  )
]

module _ {F : Floats} (files : Files) (zenoh : Zenoh F) where
  -- The text of a path that is given.
  abbrev IsQuoted : Option Str → Str → Type 0
  IsQuoted path text = (p : Str) × (path ≡ some p) × (zenoh.quote p ≡ some text)

  -- Mutual TLS with three files, and then the access list.
  abbrev locked : Str → Str → Str → Str → zenoh.Config
  locked cert key trust acl =
      let plain =
        zenoh.insert_json5 zenoh.default (codes "transport/auth/usrpwd") (codes "false") in
      let tls = zenoh.insert_json5 plain (codes "transport/link/tls/enable_mtls") (codes "true") in
      let certified = zenoh.insert_json5 tls (codes "transport/link/tls/certificate") cert in
      let keyed = zenoh.insert_json5 certified (codes "transport/link/tls/key") key in
      let anchored = zenoh.insert_json5 keyed (codes "transport/link/tls/trust_anchors") trust in
      zenoh.insert_json5 anchored (codes "access_control") acl

  -- The session of a robot over mutual TLS, with the configuration's own files.
  abbrev pub IsScoped : AuthConfig → zenoh.Config → Str → Type 0
  IsScoped c z id =
      IsProper id
      × ((cert : Str) × (key : Str) × (trust : Str) × (acl : Str) × (IsQuoted c.cert cert)
          × (IsQuoted c.key key)
          × (IsQuoted c.trust trust)
          × (zenoh.to_string (
                access_control id (codes "/robot/" ++ (id ++ codes "/**"))
                  (codes "robot/" ++ (id ++ codes "/local/rules")))
              ≡ some acl)
          × (z ≡ locked cert key trust acl))

  ok_or-eq-ok : {A : Type 0} (o : Option A) (e : AuthError) {x : A} → ok_or o e ≡ ok x → o ≡ some x
  ok_or-eq-ok Option.none e h = cc
  ok_or-eq-ok (some a) e h = ground arith

  scoped :
      (id : Str) (acl : Value F)
      → acl_config id ≡ ok acl
      → IsProper id
        × (acl
            ≡ access_control id
                (codes "/robot/" ++ (id ++ codes "/**"))
                (codes "robot/" ++ (id ++ codes "/local/rules")))
  scoped id acl h = ground (arith, acl_config_cases {F = F} id)

  mtls_session_lem :
      (c : AuthConfig) (id : Str) (z : zenoh.Config)
      → mtls_session files zenoh c id ≡ ok z
      → IsScoped c z id
  mtls_session_lem c id z h =
      let (cert, e1, h1) = >>=-eq-ok (ok_or c.cert _) _ h in
      let (key, e2, h2) = >>=-eq-ok (ok_or c.key _) _ h1 in
      let (trust, e3, h3) = >>=-eq-ok (ok_or c.trust _) _ h2 in
      let (cert_json, e4, h4) = >>=-eq-ok (ok_or (zenoh.quote cert) _) _ h3 in
      let (key_json, e5, h5) = >>=-eq-ok (ok_or (zenoh.quote key) _) _ h4 in
      let (trust_json, e6, h6) = >>=-eq-ok (ok_or (zenoh.quote trust) _) _ h5 in
      let (acl, e7, h7) = >>=-eq-ok (acl_config id) _ h6 in
      let (acl_json, e8, h8) = >>=-eq-ok (ok_or (zenoh.to_string acl) _) _ h7 in
      let (proper, e9) = scoped id acl e7 in
      (
        proper,
        (
          cert_json,
          key_json,
          trust_json,
          acl_json,
          (cert, ok_or-eq-ok c.cert _ e1, ok_or-eq-ok (zenoh.quote cert) _ e4),
          (key, ok_or-eq-ok c.key _ e2, ok_or-eq-ok (zenoh.quote key) _ e5),
          (trust, ok_or-eq-ok c.trust _ e3, ok_or-eq-ok (zenoh.quote trust) _ e6),
          rw (sym e9) (ok_or-eq-ok (zenoh.to_string acl) _ e8),
          sym (ok-injective h8),
        ),
      )

  -- Whatever the files are, a session configuration comes out only without authentication, or over
  -- mutual TLS with the configuration's three credential files, which are in place, and, inserted
  -- last, the access list of a proper robot id: the key pair mode never opens a session.
  pub zenoh_config_fail_closed :
      (c : AuthConfig) (robot_id : Str) (z : zenoh.Config)
      → zenoh_config files zenoh c robot_id ≡ ok z
      → (c.mode ≡ AuthMode.none)
        ⊎ ((c.mode ≡ mtls) × HasCredentials files c × IsScoped c z robot_id)
  unfolding zenoh_config check_credentials
  zenoh_config_fail_closed c robot_id z h = go c.mode refl
    where
      go :
          (mode : AuthMode)
          → c.mode ≡ mode
          → (c.mode ≡ AuthMode.none)
            ⊎ ((c.mode ≡ mtls) × HasCredentials files c × IsScoped c z robot_id)
      go AuthMode.none e = inl e
      go ed25519 e = ground arith
      go mtls e =
          let (x, checked, opened) = >>=-eq-ok (check_credentials files c) _ h in
          inr (
            e,
            (check_files_lem files c).0 x (ground arith),
            mtls_session_lem c robot_id z (ground arith),
          )
