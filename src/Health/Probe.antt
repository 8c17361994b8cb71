-- ===== src/Health/Probe.antt =====
-- src/health.rs: `probe`, the health check of a container. The network, the parsing of an IP address and
-- the reading of bytes as text are parameters.
use flo.Base.{
  ℕ, zero, suc, ◌+◌, ◌*◌, ◌-◌, Bool, false, ◌&&◌, ◌||◌, Option, none, some, List, [], ◌∷◌, Str,
  codes, show_ℕ, ◌++◌, str_eq, nat_eq, leb, length, is_empty, contains_char, starts_with,
  if◌then◌else◌,
}

-- What one `read` into the buffer of 512 bytes brings: some bytes (none at the end), or an error.
pub data Read : Type 0 where
  bytes : List ℕ → Read
  failed : Read

-- `rsplit_once(':')`
abbrev before : ℕ → Option (Str × Str) → Option (Str × Str)
before c none = none
before c (some (host, port)) = some (c ∷ host, port)

unfoldable pub rsplit_once : ℕ → Str → Option (Str × Str)
rsplit_once sep [] = none
rsplit_once sep (c ∷ s) =
    let later = rsplit_once sep s in
    elim later [
      | some parts ↦ before c (some parts)
      | none ↦ if nat_eq c sep then some ([], s) else none
    ]

-- `parse::<u16>()`: decimal digits after an optional plus sign, no more than 65535.
digits : ℕ → Str → Option ℕ
digits value [] = some value
digits value (c ∷ s) =
    let rest = digits (value * 10 + (c - b'0')) s in if leb b'0' c && leb c b'9' then rest else none

abbrev bounded : Option ℕ → Option ℕ
bounded none = none
bounded (some n) = if leb n 65535 then some n else none

abbrev unsigned : Str → Str
unsigned [] = []
unsigned (c ∷ s) = if nat_eq c b'+' then s else c ∷ s

unfoldable pub parse_u16 : Str → Option ℕ
unfolding digits
parse_u16 s = if is_empty (unsigned s) then none else bounded (digits 0 (unsigned s))

-- The loop over the reads from the `i`-th on; `none` where the fuel runs out.
unfoldable pub read_loop : ℕ → (ℕ → Read) → ℕ → List ℕ → Option (List ℕ)
read_loop zero reads i received = none
read_loop (suc fuel) reads i received = elim (reads i) [
  | failed ↦ some received
  | bytes [] ↦ some received
  | bytes (b ∷ bs) ↦
      let received' = received ++ b ∷ bs in
      let rest = read_loop fuel reads (suc i) received' in
      if contains_char b'\n' received'
      then some received'
      else if leb 512 (length received')
      then some received'
      else rest
]

-- A line: up to a line feed, and less the carriage return just before one.
unfoldable pub line : Str → Str
unfolding starts_with
line [] = []
line (c ∷ s) =
    let later = line s in
    if nat_eq c b'\n' || nat_eq c b'\r' && starts_with (codes "\n") s then [] else c ∷ later

-- `lines().next()`
unfoldable pub first_line : Str → Option Str
unfolding line
first_line [] = none
first_line (c ∷ s) = some (line (c ∷ s))

abbrev pub is_success : Option Str → Bool
is_success none = false
is_success (some l) = starts_with (codes "HTTP/1.1 200") l

-- The network: an IP address (or none) of a text, what a connection to it and the write of the request
-- bring (`none` is a failure, else the reads that follow), and the bytes as text.
pub record Network : Type 1 where
  pub Ip : Type 0
  pub parse_ip : Str → Option Ip
  pub localhost : Ip
  pub exchange : Ip → ℕ → Str → Option (ℕ → Read)
  pub from_utf8_lossy : List ℕ → Str

abbrev target_of : Str → Str
target_of host = if str_eq host (codes "0.0.0.0") then codes "127.0.0.1" else host

abbrev request_of : Str → ℕ → Str
request_of target port =
    codes "GET /healthz HTTP/1.1\r\nHost: "
    ++ (target ++ (codes ":" ++ (show_ℕ port ++ codes "\r\nConnection: close\r\n\r\n")))

module _ (net : Network) where
  abbrev or_localhost : Option net.Ip → net.Ip
  or_localhost none = net.localhost
  or_localhost (some ip) = ip

  abbrev verdict : Option (List ℕ) → Option Bool
  verdict none = none
  verdict (some received) = some (is_success (first_line (net.from_utf8_lossy received)))

  abbrev pub answered : ℕ → Option (ℕ → Read) → Option Bool
  answered fuel none = some false
  answered fuel (some reads) = verdict (read_loop fuel reads 0 [])

  abbrev pub probe_port : ℕ → Str → Option ℕ → Option Bool
  probe_port fuel target none = some false
  probe_port fuel target (some port) =
      answered fuel
        (net.exchange (or_localhost (net.parse_ip target)) port (request_of target port))

  abbrev pub probe_parts : ℕ → Option (Str × Str) → Option Bool
  probe_parts fuel none = some false
  probe_parts fuel (some (host, port)) = probe_port fuel (target_of host) (parse_u16 port)

  -- `none` only where the fuel runs out.
  unfoldable pub probe : ℕ → Str → Option Bool
  unfolding rsplit_once parse_u16 read_loop first_line
  probe fuel addr = probe_parts fuel (rsplit_once b':' addr)
