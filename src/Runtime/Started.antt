-- ===== src/Runtime/Started.antt =====
-- src/runtime.rs: what a client that has started can rely on.
use flo.Base.{
  ◌≡◌, ◌∙◌, ap, sym, ◌⊎◌, inl, inr, true, false, Option, none, some, Str, arith, ok, >>=-eq-ok,
  ok-injective, map_err, is_empty, if◌then◌else◌, map_err-ok,
}
use flo.Rules.Floats.{Floats}
use flo.Config.Client.{ClientConfig}
use flo.Auth.Mode.{AuthMode, mtls, AuthConfig, parse, is_authenticated}
use flo.Auth.Credentials.{validate_production}
use flo.Auth.Session.{zenoh_config}
use flo.Auth.Accepted.{IsFit, HasCredentials, validate_production-IsFit}
use flo.Auth.FailClosed.{IsScoped, zenoh_config_fail_closed}
use flo.Transport.Settings.{with_endpoints}
use flo.Transport.Wire.{Transport}
use flo.Health.Gate
use flo.Health.Gate.{is_ready}
use flo.Cli.Args.{Args, robot_id_or}
use flo.Runtime.Inputs.{Inputs, build_auth, auth_of, load_inputs}
use flo.Runtime.Retry.{Confirmed, answers, register_with_retries, register_with_retries_iff}
use flo.Runtime.Bootstrap.{
  StartError, Runtime, Site, open_with, declared, registered, bootstrap, auth_invalid,
  not_registered,
}

-- The client's robot id.
abbrev id_of : {F : Floats} {W : Type 0} → Site F W → Args → Str
id_of site args = robot_id_or args.robot_id site.env_robot_id

module _ {F : Floats} {W : Type 0} (site : Site F W) (args : Args) (w : W) where
  -- No authentication was asked for and insecurity was allowed explicitly; or mutual TLS was asked for,
  -- the three credential files are in place, and the configuration is the default one with, inserted
  -- in this order, mutual TLS, the three files, and the access list of the proper id.
  abbrev pub IsSafe : site.zenoh.Config → Type 0
  IsSafe z =
      ((parse args.auth_mode ≡ ok AuthMode.none) × (args.auth_allow_insecure ≡ true))
      ⊎ ((parse args.auth_mode ≡ ok mtls)
          × HasCredentials site.files (auth_of args mtls)
          × IsScoped site.files site.zenoh (auth_of args mtls) z (id_of site args))

  -- The configuration that is opened: with the peers of the arguments, if there are any.
  abbrev pub with_peers : site.zenoh.Config → site.zenoh.Config
  with_peers z = if is_empty args.connect then z else with_endpoints site.zenoh z args.connect

  -- The server has confirmed the registration, if there was anything to register.
  abbrev pub IsRegistered : Option ClientConfig → Type 0
  IsRegistered none = Unit
  IsRegistered (some cfg) = Confirmed (answers (site.register (id_of site args) cfg) 3 w)

  build_auth_lem :
      (auth : AuthConfig)
      → build_auth site.files args ≡ ok auth
      → IsFit site.files auth
        × ((mode : AuthMode) × (auth ≡ auth_of args mode) × (parse args.auth_mode ≡ ok mode))
  unfolding build_auth
  build_auth_lem auth h =
      let (mode, e1, h1) = >>=-eq-ok (parse args.auth_mode) _ h in
      let (checked, e2, h2) = >>=-eq-ok (validate_production site.files (auth_of args mode)) _ h1 in
      let same = ok-injective h2 in
      (
        rw (← same) (validate_production-IsFit site.files (auth_of args mode) checked e2),
        (mode, sym same, e1),
      )

  -- A configuration of the session comes out only in safety.
  safe_lem :
      (auth : AuthConfig) (z : site.zenoh.Config)
      → build_auth site.files args ≡ ok auth
      → zenoh_config site.files site.zenoh auth (id_of site args) ≡ ok z
      → IsSafe z
  unfolding is_authenticated
  safe_lem auth z built opened =
      let (fit, (mode, e, asked)) = build_auth_lem auth built in
      elim (zenoh_config_fail_closed site.files site.zenoh auth (id_of site args) z opened) [
        | inl unauthenticated ↦ elim fit [
          | inl (m, allowed) ↦ inl (asked ∙ ap ok (rw e at m), rw e at allowed)
          | inr (m, k) ↦ ground arith
        ]
        | inr (m, credentials, scoped) ↦
            inr (asked ∙ ap ok (rw e at m), rw e at credentials, rw e at scoped)
      ]

  opens_lem :
      (z : site.zenoh.Config) {t : Transport} → open_with site z ≡ ok t → site.opens z ≡ true
  opens_lem z h = ground arith

  registered_lem :
      (config : Option ClientConfig)
      → registered site (id_of site args) config w ≡ ok tt
      → IsRegistered config
  registered_lem none h = tt
  registered_lem (some cfg) h =
      (register_with_retries_iff (site.register (id_of site args) cfg) w).0 (
        map_err-ok not_registered
          (register_with_retries (site.register (id_of site args) cfg) w).result h)

  -- A client starts only if the session has opened, under a configuration `z` with the peers of the
  -- arguments, if there are any. Either the mode without authentication was asked for and insecurity
  -- allowed explicitly; or mutual TLS was asked for, the three credential files are in place, the
  -- robot id is proper, and `z` is the default configuration with, inserted in this order, mutual TLS,
  -- those files and the access list of the id (what zenoh makes of an insertion is not said). And the
  -- server has confirmed its registration within three attempts, unless there was no usable
  -- configuration to register with; it starts with the rules that were loaded, and not ready.
  pub bootstrap_started :
      (runtime : Runtime F)
      → bootstrap site args w ≡ ok runtime
      → ((z : site.zenoh.Config) × IsSafe z × (site.opens (with_peers z) ≡ true))
        × ((inputs : Inputs F) × (load_inputs {E = StartError} site.files site.toml site.ptr args
                (id_of site args)
              ≡ ok inputs)
            × (runtime.store ≡ inputs.store)
            × IsRegistered inputs.client_config)
        × (is_ready runtime.health ≡ false)
  unfolding bootstrap is_ready Gate.new
  bootstrap_started runtime h =
      let (auth, e1, h1) = >>=-eq-ok (map_err auth_invalid (build_auth site.files args)) _ h in
      let (inputs, e2, h2) =
        >>=-eq-ok
          (load_inputs {E = StartError} site.files site.toml site.ptr args (id_of site args)) _
          h1 in
      let (config, e3, h3) =
        >>=-eq-ok (map_err auth_invalid (zenoh_config site.files site.zenoh auth (id_of site args)))
          _ h2 in
      let (opened, e4, h4) = >>=-eq-ok (open_with site _) _ h3 in
      let (transport, e5, h5) = >>=-eq-ok (declared site opened (id_of site args)) _ h4 in
      let (u, e6, h6) = >>=-eq-ok (registered site (id_of site args) inputs.client_config w) _ h5 in
      let same = ok-injective h6 in
      (
        (
          config,
          safe_lem auth config (map_err-ok auth_invalid (build_auth site.files args) e1) (
              map_err-ok auth_invalid (zenoh_config site.files site.zenoh auth (id_of site args))
                e3),
          opens_lem (with_peers config) e4,
        ),
        (inputs, e2, ap (λ r. r.store) (sym same), registered_lem inputs.client_config e6),
        ap (λ r. r.health.ready) (sym same),
      )
