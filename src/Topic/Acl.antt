-- ===== src/Topic/Acl.antt =====
-- src/topic.rs, `impl AclExpr`: a validated access-control key expression.
use flo.Base.{
  ◌-◌, ◌&&◌, not, Str, codes, starts_with, ends_with, contains_char, is_empty, length, take, drop,
  if◌then◌else◌, Outcome, ok, err, panic, leb, ℕ,
}
use flo.Topic.Grammar.{TopicError, empty, unknown_pattern}

pub record AclExpr : Type 0 where
  pub text : Str

unfoldable pub unknown : Str → Outcome TopicError AclExpr
unknown s = err (record { topic = s; kind = unknown_pattern })

-- `&s[from..to]`: a panic where the range is reversed.
unfoldable pub slice : Str → ℕ → ℕ → Outcome TopicError Str
slice s from to = if leb from to then ok (take (to - from) (drop from s)) else panic

unfoldable pub accept_inner : Str → Outcome TopicError Str → Outcome TopicError AclExpr
unfolding unknown
accept_inner s (ok inner) =
    if not (is_empty inner) && (not (contains_char b'/' inner) && not (contains_char b'*' inner))
    then ok (record { text = s })
    else unknown s
accept_inner s (err e) = err e
accept_inner s panic = panic

unfoldable pub try_new : Str → Outcome TopicError AclExpr
unfolding accept_inner slice unknown
try_new s =
    if is_empty s
    then err (record { topic = s; kind = empty })
    else if starts_with (codes "/robot/") s && ends_with (codes "/**") s
    then accept_inner s (slice s 7 (length s - 3))
    else unknown s
