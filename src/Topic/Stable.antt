-- ===== src/Topic/Stable.antt =====
-- src/topic.rs: canonical texts are stable, and a concrete topic is a pattern too.
use flo.Base.{
  ◌≡◌, refl, ap, ◌⊎◌, inl, inr, false, none, some, List, [], ◌∷◌, ◌++◌, Str, codes, split, is_empty,
  strip_prefix, arith, ok, any, contains_str, Option-cases, ℕ,
}
use flo.Topic.Grammar.{
  canonicalize, canonical_strip, canonical_rest, cut, is_wildcard, is_valid_pattern,
  wildcard_pattern,
}
use flo.Topic.Name
use flo.Topic.Name.{Topic}
use flo.Topic.Pattern

cut-append : (c : ℕ) (s a b : Str) → cut c s ≡ some (a, b) → a ++ b ≡ s
unfolding cut
cut-append c [] a b h = cc
cut-append c (d ∷ s) a b h = elim (Option-cases (cut c s)) [
  | inl e ↦ ground (arith, e)
  | inr (p, e) ↦ ground (arith, e, cut-append c s p.0 p.1 e)
]

canonical_rest_lem : (rest : Str) → canonical_rest rest (cut b'/' rest) ≡ codes "robot/" ++ rest
unfolding canonical_rest
canonical_rest_lem rest = elim (Option-cases (cut b'/' rest)) [
  | inl e ↦ rw (e, canonical_rest)
  | inr (p, e) ↦ rw (e, canonical_rest, cut-append b'/' rest p.0 p.1 e)
]

-- A text is its own canonical form, or has the slash form as its canonical form.
canonicalize-cases :
    (s : Str)
    → ((canonicalize s ≡ s) × (strip_prefix (codes "robot-") s ≡ none))
      ⊎ ((rest : Str) × (canonicalize s ≡ codes "robot/" ++ rest))
unfolding canonicalize
canonicalize-cases s = elim (Option-cases (strip_prefix (codes "robot-") s)) [
  | inl e ↦ inl (rw (e, canonical_strip), e)
  | inr (rest, e) ↦ inr (rest, rw (e, canonical_strip) (canonical_rest_lem rest))
]

canonicalize_slash : (rest : Str) → canonicalize (codes "robot/" ++ rest) ≡ codes "robot/" ++ rest
unfolding canonicalize
canonicalize_slash rest = refl

-- Canonicalisation is idempotent: a canonical text is its own canonical form.
canonicalize_idem : (s : Str) → canonicalize (canonicalize s) ≡ canonicalize s
canonicalize_idem s = elim (canonicalize-cases s) [
  | inl (e, _) ↦ ap canonicalize e
  | inr (rest, e) ↦ rw e (canonicalize_slash rest)
]

canonicalize_full : (s : Str) → is_empty s ≡ false → is_empty (canonicalize s) ≡ false
canonicalize_full s h = elim (canonicalize-cases s) [
  | inl (e, _) ↦ rw e h
  | inr (rest, e) ↦ rw e refl
]

-- Validation is a projection: the text of an accepted topic is accepted, as the same topic.
pub try_new_idem : (s : Str) (t : Topic) → Name.try_new s ≡ ok t → Name.try_new t.text ≡ ok t
unfolding Name.try_new
try_new_idem s t h = ground (arith, canonicalize_idem s, canonicalize_full s)

no_wildcard_arm :
    (parts : List Str) → any is_wildcard parts ≡ false → wildcard_pattern parts ≡ false
unfolding wildcard_pattern
no_wildcard_arm [] h = refl
no_wildcard_arm (a ∷ []) h = refl
no_wildcard_arm (a ∷ b ∷ []) h = refl
no_wildcard_arm (a ∷ b ∷ c ∷ []) h = ground arith
no_wildcard_arm (a ∷ b ∷ c ∷ d ∷ []) h = ground arith
no_wildcard_arm (a ∷ b ∷ c ∷ d ∷ e ∷ []) h = ground arith
no_wildcard_arm (a ∷ b ∷ c ∷ d ∷ e ∷ f ∷ r) h = refl

-- A topic with no wildcard segment and no empty inner segment is a pattern with the same text.
try_new_pattern :
    (s : Str) (t : Topic)
    → Name.try_new s ≡ ok t
    → any is_wildcard (split b'/' t.text) ≡ false
    → contains_str (codes "//") s ≡ false
    → Pattern.try_new s ≡ ok (record { text = t.text })
unfolding Name.try_new Pattern.try_new is_valid_pattern
try_new_pattern s t h w e = ground (arith, no_wildcard_arm (split b'/' (canonicalize s)))
