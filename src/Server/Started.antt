-- ===== src/Server/Started.antt =====
-- src/server.rs: what a server that has started can rely on.
use flo.Base.{
  ◌≡◌, ap, sym, ◌⊎◌, inl, inr, true, false, Str, arith, ok, >>=-eq-ok, ok-injective, map_err,
  map_err-ok,
}
use flo.Rules.Floats.{Floats}
use flo.Config.Server.{ServerConfig}
use flo.Config.Bootstrap.{bootstrap_demo}
use flo.Registration.Lease
use flo.Auth.Mode.{AuthMode, mtls, parse, is_authenticated}
use flo.Auth.Credentials.{validate_production}
use flo.Auth.Session.{zenoh_config}
use flo.Auth.Accepted.{HasCredentials, validate_production-IsFit}
use flo.Auth.FailClosed.{IsProper, zenoh_config_fail_closed}
use flo.Health.Gate
use flo.Health.Gate.{is_ready}
use flo.Cli.Args.{ServerArgs}
use flo.Server.Start.{
  ServerError, auth_invalid, not_opened, no_directory, no_registry, Server, Site, auth_of, require,
  load_config, run_server,
}

module _ {F : Floats} (site : Site F) (args : ServerArgs) (robot_id : Str) where
  abbrev IsSafe : Type 0
  IsSafe =
      (args.auth_allow_insecure ≡ true)
      ⊎ (HasCredentials site.files (auth_of args mtls) × IsProper robot_id)

  safe_lem :
      (mode : AuthMode) (c : site.zenoh.Config)
      → (x : _) → validate_production site.files (auth_of args mode) ≡ ok x
      → zenoh_config site.files site.zenoh (auth_of args mode) robot_id ≡ ok c
      → IsSafe
  unfolding is_authenticated
  safe_lem mode c x valid opened =
      elim (zenoh_config_fail_closed site.files site.zenoh (auth_of args mode) robot_id c opened) [
        | inl m ↦ elim (validate_production-IsFit site.files (auth_of args mode) x valid) [
          | inl (n, allowed) ↦ inl allowed
          | inr (a, k) ↦ ground arith
        ]
        | inr (m, credentials, scoped) ↦ inr (credentials, scoped.0)
      ]

  -- A server starts only if its session is authenticated, with the three credential files in place and a
  -- proper robot id (or insecurity was allowed explicitly), and its configuration is readable and
  -- well formed (or none was asked for); it starts with the registry of that configuration, in which
  -- just the configured clients are expected, and not ready.
  pub run_server_started :
      (server : Server F)
      → run_server site args robot_id ≡ ok server
      → IsSafe
        × ((config : ServerConfig) × (load_config site args.config ≡ ok config)
            × (server.lease ≡ Lease.new config))
        × (is_ready server.health ≡ false)
  unfolding run_server is_ready Gate.new
  run_server_started server h =
      let (mode, e1, h1) = >>=-eq-ok (map_err auth_invalid (parse args.auth_mode)) _ h in
      let (x, e2, h2) =
        >>=-eq-ok (map_err auth_invalid (validate_production site.files (auth_of args mode))) _
          h1 in
      let (c, e3, h3) =
        >>=-eq-ok
          (map_err auth_invalid (zenoh_config site.files site.zenoh (auth_of args mode) robot_id)) _
          h2 in
      let (config, e4, h4) = >>=-eq-ok (load_config site args.config) _ h3 in
      let (u, e5, h5) = >>=-eq-ok (require (site.opens c) not_opened) _ h4 in
      let (store, e6, h6) =
        >>=-eq-ok (bootstrap_demo site.parse_rules {E = ServerError} site.demo site.ptr robot_id) _
          h5 in
      let (v, e7, h7) = >>=-eq-ok (require site.has_directory no_directory) _ h6 in
      let (w, e8, h8) = >>=-eq-ok (require site.has_registry no_registry) _ h7 in
      let same = ok-injective h8 in
      (
        safe_lem mode c x (map_err-ok auth_invalid _ e2) (map_err-ok auth_invalid _ e3),
        (config, e4, ap (λ s. s.lease) (sym same)),
        ap (λ s. s.health.ready) (sym same),
      )
