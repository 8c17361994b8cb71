-- ===== src/Topic/Slashes.antt =====
-- src/topic.rs: the response and alert topics of a robot, at every robot id.
use flo.Base.{
  ℕ, nat_eq, cons_head, ◌≡◌, refl, inl, inr, true, false, List, [], ◌∷◌, ◌++◌, Str, codes, split,
  Lacks, split-sep, contains_char, str_eq, if◌then◌else◌, arith, ok, panic, Bool-cases, All,
}
use flo.Topic.Grammar.{canonicalize, matches_one_of}
use flo.Topic.Name
use flo.Topic.Name.{Topic}
use flo.Topic.Builders.{registration_response, deregistration_response}
use flo.Topic.Validity.{registration_response_lem, deregistration_response_lem}

cons_head-All :
    (c d : ℕ) (ps : List Str)
    → nat_eq c d ≡ false
    → All (Lacks c) ps
    → All (Lacks c) (cons_head d ps)
cons_head-All c d [] h a = ground (arith, a)
cons_head-All c d (p ∷ ps) h a = (ground (arith, a.0), a.1)

-- Splitting never leaves a separator inside a part.
pub split-All : (c : ℕ) (s : Str) → All (Lacks c) (split c s)
unfolding split
split-All c [] = (refl, tt)
split-All c (d ∷ s) = elim (Bool-cases (nat_eq d c)) [
  | inl e ↦ rw e (refl, split-All c s)
  | inr e ↦ rw e (cons_head-All c d (split c s) (ground arith) (split-All c s))
]

split_one : (c : ℕ) (s : Str) → (p : Str) × (ps : List Str) × (split c s ≡ p ∷ ps)
unfolding split
split_one c [] = ([], [], refl)
split_one c (d ∷ s) = elim (Bool-cases (nat_eq d c)) [
  | inl e ↦ ([], split c s, rw e)
  | inr e ↦ let (p, ps, k) = split_one c s in (d ∷ p, ps, rw (e, k))
]

split_two :
    (c : ℕ) (s : Str)
    → contains_char c s ≡ true
    → (p : Str) × (q : Str) × (ps : List Str) × (split c s ≡ p ∷ q ∷ ps)
unfolding split
split_two c [] h = cc
split_two c (d ∷ s) h = elim (Bool-cases (nat_eq d c)) [
  | inl e ↦ let (p, ps, k) = split_one c s in ([], p, ps, rw (e, k))
  | inr e ↦ let (p, q, ps, k) = split_two c s (ground arith) in (d ∷ p, q, ps, rw (e, k))
]

five_or_more :
    (a b c d e : Str) (ps : List Str)
    → str_eq a (codes "robot") ≡ false
    → str_eq a (codes "zone") ≡ false
    → matches_one_of (a ∷ b ∷ c ∷ d ∷ e ∷ ps) ≡ false
unfolding matches_one_of
five_or_more a b c d e [] h k = ground arith
five_or_more a b c d e (p ∷ ps) h k = refl

-- A fleet topic whose last segment would hold a slash is refused.
refused :
    (head mid id : Str)
    → Lacks b'/' head
    → Lacks b'/' mid
    → contains_char b'/' id ≡ true
    → matches_one_of (split b'/' (codes "fleet/" ++ (head ++ b'/' ∷ (mid ++ b'/' ∷ id)))) ≡ false
unfolding split str_eq
refused head mid id h k w =
    let (p, q, ps, e) = split_two b'/' id w in
    ground (
      arith,
      split-sep b'/' head (mid ++ b'/' ∷ id) h,
      split-sep b'/' mid id k,
      e,
      five_or_more (codes "fleet") head mid p q ps refl refl,
    )

module _ {ℓ} {E : Type ℓ} (id : Str) where
  -- The topic of a registration response exists exactly at ids with no slash; at the others the
  -- builder panics.
  pub registration_response_cases : registration_response {E = E} id ≡ (
      if contains_char b'/' id
      then panic
      else ok (record { text = codes "fleet/registration/response/" ++ id }))
  unfolding registration_response Name.try_new canonicalize
  registration_response_cases = elim (Bool-cases (contains_char b'/' id)) [
    | inl w ↦ rw (w, refused (codes "registration") (codes "response") id refl refl w)
    | inr lacks ↦ rw lacks (registration_response_lem id lacks)
  ]

  -- The topic of a deregistration response likewise.
  pub deregistration_response_cases : deregistration_response {E = E} id ≡ (
      if contains_char b'/' id
      then panic
      else ok (record { text = codes "fleet/deregistration/response/" ++ id }))
  unfolding deregistration_response Name.try_new canonicalize
  deregistration_response_cases = elim (Bool-cases (contains_char b'/' id)) [
    | inl w ↦ rw (w, refused (codes "deregistration") (codes "response") id refl refl w)
    | inr lacks ↦ rw lacks (deregistration_response_lem id lacks)
  ]
