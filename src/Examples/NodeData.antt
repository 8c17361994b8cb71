-- ===== src/Examples/NodeData.antt =====
-- Test data: files, a session, arguments, parsers and a peer that answers the probe.
use mathlib.Core.Path.{subst}
use flo.Base.{
  arith, ℕ, zero, suc, ◌≡◌, true, false, Option, none, some, List, [], ◌∷◌, Str, codes, str_eq,
  if◌then◌else◌, Outcome, ok, err,
}
use flo.Rules.Model.{Rules}
use flo.Auth.Mode.{mtls, AuthConfig}
use flo.Auth.Credentials.{Files}
use flo.Transport.Settings.{Zenoh}
use flo.Cli.Args.{Args}
use flo.Media.Codec.{h264}
use flo.Runtime.Inputs.{Toml, empty_rules}
use flo.Runtime.Bootstrap.{Site}
use flo.Registration.Lease.{RegistrationError, timeout}
use flo.Health.Probe.{Read, bytes, Network}
use flo.Health.ProbeLaws.{FitsBuffer}
use flo.Examples.Data.{floats, client_config, zone_level, estop}

-- Every path is a file with a PEM header.
abbrev pub pem_files : Files
pem_files = record {
  exists = λ path. true;
  read_to_string = λ path. some (codes "-----BEGIN CERTIFICATE-----");
}

abbrev pub mtls_auth : AuthConfig
mtls_auth = record {
  mode = mtls;
  allow_insecure = false;
  cert = some (codes "c");
  key = some (codes "k");
  trust = some (codes "t");
}

-- A configuration is what was inserted.
abbrev pub inserts : Zenoh floats
inserts = record {
  Config = List (Str × Str);
  default = [];
  insert_json5 = λ c key value. (key, value) ∷ c;
  quote = some;
  quote_all = λ ss. some (codes "[]");
  to_string = λ v. some (codes "{}");
}

-- The only text that is read is that of no rules.
abbrev pub reads_empty : Str → Option (Rules floats)
reads_empty text = if str_eq text empty_rules then some (record { rules = [] }) else none

abbrev pub poor_toml : Toml floats
poor_toml = record {
  parse_client = λ text. some client_config;
  parse_rules = reads_empty;
  parse_semantic = λ text. none;
  print_rules = λ rules. none;
  demo = codes "rules = []\n";
}

-- Every text is the same rules, of one guarded rule.
abbrev pub raw_rules : Rules floats
raw_rules = record {
  rules =
      record {
        name = codes "dock";
        when = record { all = zone_level ∷ []; any = [] };
        actions = estop ∷ [];
      }
      ∷ [];
}

abbrev pub raw_toml : Toml floats
raw_toml = record {
  parse_client = λ text. none;
  parse_rules = λ text. some raw_rules;
  parse_semantic = λ text. none;
  print_rules = λ rules. none;
  demo = [];
}

abbrev pub client_args : Args
client_args = record {
  robot_id = some (codes "r1");
  config = some (codes "client.toml");
  ruleset_path = some (codes "rules.toml");
  auth_mode = codes "mtls";
  auth_allow_insecure = false;
  auth_cert = some (codes "c");
  auth_key = some (codes "k");
  auth_trust = some (codes "t");
  connect = [];
  healthcheck = false;
  print_zenoh_port = false;
  video = record { peer = none; device = none; codec = h264; self_test = false };
  command = none;
}

-- The first attempt times out, the second is confirmed.
abbrev pub second_try : ℕ → ℕ × Outcome RegistrationError (Unit {0})
second_try zero = (1, err timeout)
second_try (suc n) = (suc (suc n), ok tt)

abbrev pub site : Site floats ℕ
site = record {
  files = pem_files;
  toml = poor_toml;
  zenoh = inserts;
  env_robot_id = none;
  ptr = 0;
  opens = λ config. true;
  accepts_token = true;
  register = λ robot_id config. second_try;
}

abbrev pub status_line : List ℕ
status_line = codes "HTTP/1.1 200 OK\n"

abbrev pub healthy : Network
healthy = record {
  Ip = Unit {0};
  parse_ip = λ text. some tt;
  localhost = tt;
  exchange = λ ip port request. some (λ i. bytes status_line);
  from_utf8_lossy = λ received. received;
}

abbrev AllFit : Option (ℕ → Read) → Type 0
AllFit none = Unit
AllFit (some reads) = (j : ℕ) → FitsBuffer (reads j)

pub healthy_fits :
    (ip : healthy.Ip) (port : ℕ) (request : Str) (reads : ℕ → Read)
    → healthy.exchange ip port request ≡ some reads
    → (j : ℕ) → FitsBuffer (reads j)
healthy_fits ip port request reads e = subst AllFit e (λ j. ground arith)
