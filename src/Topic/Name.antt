-- ===== src/Topic/Name.antt =====
-- src/topic.rs, `impl Topic`: a topic string that has passed validation.
use flo.Base.{Str, split, is_empty, if◌then◌else◌, Outcome, ok, err}
use flo.Topic.Grammar.{TopicError, empty, unknown_pattern, canonicalize, matches_one_of}

pub record Topic : Type 0 where
  pub text : Str

-- Validates the canonical form; the error carries the text as given.
unfoldable pub try_new : Str → Outcome TopicError Topic
try_new s =
    if is_empty s
    then err (record { topic = s; kind = empty })
    else if matches_one_of (split b'/' (canonicalize s))
    then ok (record { text = canonicalize s })
    else err (record { topic = s; kind = unknown_pattern })

unfoldable pub check_topic_pattern : Str → Outcome TopicError (Unit {0})
unfolding try_new
check_topic_pattern s = elim (try_new s) [
  | ok t ↦ ok tt
  | err e ↦ err e
  | Outcome.panic ↦ Outcome.panic
]
