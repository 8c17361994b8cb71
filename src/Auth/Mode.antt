-- ===== src/Auth/Mode.antt =====
-- src/auth.rs: `AuthMode`, `AuthConfig` and `AuthError`.
use flo.Base.{
  ℕ, ◌+◌, Bool, true, false, ◌&&◌, Option, Str, codes, ◌++◌, map, leb, str_eq, if◌then◌else◌,
  Outcome, ok, err,
}

pub data AuthMode : Type 0 where
  mtls : AuthMode
  ed25519 : AuthMode
  none : AuthMode

pub data AuthError : Type 0 where
  unknown_mode : Str → AuthError
  insecure_blocked : AuthError
  missing_credential : Str → AuthError

-- `to_ascii_lowercase` of one character.
abbrev lower_char : ℕ → ℕ
lower_char c = if leb b'A' c && leb c b'Z' then c + 32 else c

abbrev pub to_ascii_lowercase : Str → Str
to_ascii_lowercase s = map lower_char s

unfoldable pub parse : Str → Outcome AuthError AuthMode
unfolding str_eq
parse s =
    let other = to_ascii_lowercase s in
    if str_eq other (codes "mtls")
    then ok AuthMode.mtls
    else if str_eq other (codes "ed25519")
    then ok AuthMode.ed25519
    else if str_eq other (codes "none")
    then ok AuthMode.none
    else err (unknown_mode other)

unfoldable pub is_authenticated : AuthMode → Bool
is_authenticated AuthMode.none = false
is_authenticated mode = true

pub record AuthConfig : Type 0 where
  pub mode : AuthMode
  pub allow_insecure : Bool
  pub cert : Option Str
  pub key : Option Str
  pub trust : Option Str

unfoldable pub default : AuthConfig
default = record {
  mode = AuthMode.mtls;
  allow_insecure = false;
  cert = Option.none;
  key = Option.none;
  trust = Option.none;
}

-- `Display`
unfoldable pub display : AuthError → Str
display (unknown_mode m) = codes "unknown auth mode: " ++ m
display insecure_blocked =
    codes
      "auth: none is blocked in production; set allow_insecure to override (dev/air-gapped only)"
display (missing_credential c) = codes "missing required credential: " ++ c
