-- ===== src/Topic/Pattern.antt =====
-- src/topic.rs, `impl Pattern`: a validated subscription pattern.
use flo.Base.{
  ◌&&◌, ◌||◌, not, Str, codes, split, str_eq, starts_with, ends_with, contains_str, is_empty,
  if◌then◌else◌, Outcome, ok, err, Bool, false,
}
use flo.Topic.Grammar.{TopicError, empty, unknown_pattern, canonicalize, is_valid_pattern}

pub record Pattern : Type 0 where
  pub text : Str

-- The test for empty segments as the source nests it.
has_empty_segment : Str → Bool
has_empty_segment s =
    if contains_str (codes "//") s || starts_with (codes "/") s || ends_with (codes "/") s
    then not (str_eq s (codes "fleet/*/ruleset/**")) && contains_str (codes "//") s
    else false

unfoldable pub try_new : Str → Outcome TopicError Pattern
unfolding has_empty_segment
try_new s =
    if is_empty s
    then err (record { topic = s; kind = empty })
    else if has_empty_segment s
    then err (record { topic = s; kind = unknown_pattern })
    else if is_valid_pattern (split b'/' (canonicalize s))
    then ok (record { text = canonicalize s })
    else err (record { topic = s; kind = unknown_pattern })
