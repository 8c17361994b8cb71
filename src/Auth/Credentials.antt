-- ===== src/Auth/Credentials.antt =====
-- src/auth.rs: the checks of the credential files. The file system is a parameter: whether a path
-- exists, and its text where it can be read.
use flo.Base.{
  Bool, ◌&&◌, not, Option, Str, codes, contains_str, str_eq, if◌then◌else◌, Outcome, ok, err, ok_or,
  ◌>>=◌, ◌>>◌,
}
use flo.Auth.Mode.{
  AuthMode, mtls, ed25519, AuthError, insecure_blocked, missing_credential, AuthConfig,
  is_authenticated,
}

pub record Files : Type 0 where
  pub exists : Str → Bool
  pub read_to_string : Str → Option Str

module _ (files : Files) where
  abbrev pub has_header : Str → Str → Bool
  has_header field content =
      if str_eq field (codes "key")
      then contains_str (codes "-----BEGIN") content
      else contains_str (codes "-----BEGIN CERTIFICATE-----") content

  unfoldable pub validate_pem_file : Str → Str → Outcome AuthError (Unit {0})
  validate_pem_file path field =
      if not (files.exists path) then err (missing_credential field) else (do
        content ← ok_or (files.read_to_string path) (missing_credential field)
        if not (has_header field content) then err (missing_credential field) else ok tt)

  -- The credentials of an authenticated mode.
  abbrev pub check_files : AuthConfig → Outcome AuthError AuthConfig
  check_files self = do
    cert ← ok_or self.cert (missing_credential (codes "cert"))
    key ← ok_or self.key (missing_credential (codes "key"))
    trust ← ok_or self.trust (missing_credential (codes "trust"))
    validate_pem_file cert (codes "cert")
    validate_pem_file key (codes "key")
    validate_pem_file trust (codes "trust")
    ok self

  unfoldable pub check_credentials : AuthConfig → Outcome AuthError AuthConfig
  check_credentials self = elim self.mode [
    | AuthMode.none ↦ ok self
    | mtls ↦ check_files self
    | ed25519 ↦ check_files self
  ]

  unfoldable pub validate_production : AuthConfig → Outcome AuthError AuthConfig
  unfolding is_authenticated
  validate_production self =
      if not (is_authenticated self.mode) && not self.allow_insecure
      then err insecure_blocked
      else (do check_credentials self; ok self)

  unfoldable pub validate_dev : AuthConfig → Outcome AuthError AuthConfig
  validate_dev self = check_credentials self
