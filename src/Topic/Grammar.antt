-- ===== src/Topic/Grammar.antt =====
-- src/topic.rs: canonicalisation, the match table of topics and that of subscription patterns.
use flo.Base.{
  ℕ, Option, none, some, Bool, true, false, ◌&&◌, ◌||◌, List, [], ◌∷◌, ◌++◌, Str, codes, str_eq,
  strip_prefix, any, if◌then◌else◌, nat_eq,
}
use Prim.Native.String.{String}

pub data TopicErrorKind : Type 0 where
  empty unknown_pattern : TopicErrorKind

pub record TopicError : Type 0 where
  pub topic : Str
  pub kind : TopicErrorKind

-- A segment that is the literal `w`.
abbrev pub lit : String → Str → Bool
lit w s = str_eq s (codes w)

-- `find('/')` and the two slices at the place found: what stands before, and the rest from there.
unfoldable pub put_before : ℕ → Option (Str × Str) → Option (Str × Str)
put_before d none = none
put_before d (some (a, b)) = some (d ∷ a, b)

unfoldable pub cut : ℕ → Str → Option (Str × Str)
unfolding put_before
cut c [] = none
cut c (d ∷ s) = let later = put_before d (cut c s) in if nat_eq d c then some ([], d ∷ s) else later

unfoldable pub canonical_rest : Str → Option (Str × Str) → Str
canonical_rest rest (some (id, suffix)) = codes "robot/" ++ (id ++ suffix)
canonical_rest rest none = codes "robot/" ++ rest

unfoldable pub canonical_strip : Str → Option Str → Str
canonical_strip s (some rest) = canonical_rest rest (cut b'/' rest)
canonical_strip s none = s

unfoldable pub canonicalize : Str → Str
unfolding canonical_strip canonical_rest strip_prefix cut
canonicalize s = canonical_strip s (strip_prefix (codes "robot-") s)

unfoldable pub matches_one_of : List Str → Bool
matches_one_of (a ∷ b ∷ []) =
    lit "fleet" a && lit "registration" b
    || lit "fleet" a && lit "deregistration" b
    || lit "sensor" a
    || lit "actuator" a
matches_one_of (a ∷ b ∷ c ∷ []) =
    lit "robot" a && lit "zone" c
    || lit "robot" a && lit "site" c
    || lit "stop" a && lit "cmd" c
    || lit "lidar" a && lit "scan" c
    || lit "zone" a && lit "entered" c
    || lit "zone" a && lit "cleared" c
matches_one_of (a ∷ b ∷ c ∷ d ∷ []) =
    lit "robot" a && lit "local" c
    || lit "robot" a && lit "location" c
    || lit "robot" a && (lit "signal" c && lit "presence" d)
    || lit "robot" a && (lit "client" c && lit "liveliness" d)
    || lit "fleet" a && (lit "registration" b && lit "response" c)
    || lit "fleet" a && (lit "deregistration" b && lit "response" c)
    || lit "fleet" a && (lit "alerts" b && lit "heartbeat" c)
    || lit "fleet" a && lit "ruleset" c
matches_one_of (a ∷ b ∷ c ∷ d ∷ e ∷ []) =
    lit "robot" a && lit "signal" c
    || lit "zone" a && lit "entered" e
    || lit "zone" a && lit "cleared" e
matches_one_of _ = false

abbrev pub is_wildcard : Str → Bool
is_wildcard p = lit "*" p || lit "**" p

-- The arms of the source's match that name a wildcard.
unfoldable pub wildcard_pattern : List Str → Bool
wildcard_pattern (a ∷ b ∷ c ∷ []) =
    lit "zone" a && (lit "*" b && lit "entered" c) || lit "zone" a && (lit "*" b && lit "cleared" c)
wildcard_pattern (a ∷ b ∷ c ∷ d ∷ []) =
    lit "robot" a && (lit "*" b && (lit "client" c && lit "liveliness" d))
    || lit "robot" a && (lit "*" b && (lit "signal" c && lit "presence" d))
    || lit "fleet" a && (lit "*" b && (lit "ruleset" c && lit "**" d))
wildcard_pattern (a ∷ b ∷ c ∷ d ∷ e ∷ []) =
    lit "robot" a && (lit "*" b && (lit "signal" c && lit "offer" e))
    || lit "robot" a && (lit "*" b && (lit "signal" c && lit "answer" e))
    || lit "robot" a && (lit "*" b && (lit "signal" c && lit "ice" e))
    || lit "zone" a
      && (lit "*" b && (lit "*" c && (lit "*" d && (lit "entered" e || lit "cleared" e))))
wildcard_pattern _ = false

unfoldable pub is_valid_pattern : List Str → Bool
unfolding wildcard_pattern
is_valid_pattern parts =
    if wildcard_pattern parts
    then true
    else if any is_wildcard parts
    then false
    else matches_one_of parts
