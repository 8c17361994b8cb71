-- ===== src/Engine/ZoneLaws.antt =====
-- src/engine.rs: the zone map as a relation between robots and zones.
use flo.Base.{
  ℕ, ◌++◌, codes, split, split-sep, Lacks, starts_with, ends_with, ends_with-append, ◌≡◌, refl, ◌↔◌,
  inl, inr, Bool, true, false, not, ◌&&◌, ◌||◌, Option, none, some, List, [], ◌∷◌, Str, Str_eq,
  str_eq, str_eq_iff, str_eq_refl, lookup, lookup-insert, lookup-without, member, add, delete,
  member-add, member-delete, is_empty, any, arith, Bool-cases, Option-cases,
}
use flo.Rules.Floats.{Floats}
use flo.Rules.Json.{Value, get}
use flo.Engine.Eval.{string_of}
use flo.Engine.State.{EvalState, is_zone_event, zone_event, ingest}
use flo.Engine.Zones.{Zones, zones_of, enter_zone, clear_zone, share_zone}

abbrev pub holds : Option (List Str) → Str → Bool
holds none z = false
holds (some zs) z = member z zs

-- Robot `r` is in zone `z`.
abbrev pub in_zone : Zones → Str → Str → Bool
in_zone zones r z = holds (lookup r zones) z

-- Entering a zone adds exactly that robot to exactly that zone.
in_zone-enter_zone :
    (zones : Zones) (robot zone r z : Str)
    → in_zone (enter_zone zones robot zone) r z
      ≡ (str_eq robot r && str_eq zone z || in_zone zones r z)
unfolding enter_zone zones_of member
in_zone-enter_zone zones robot zone r z = ground (
  arith,
  lookup-insert r robot (add zone (zones_of zones robot)) zones,
  member-add z zone (zones_of zones robot),
  str_eq_iff robot r,
)

member-empty : (z : Str) (zs : List Str) → is_empty zs ≡ true → member z zs ≡ false
unfolding member
member-empty z [] h = refl
member-empty z (x ∷ zs) h = cc

-- Clearing a zone takes exactly that robot out of exactly that zone.
in_zone-clear_zone :
    (zones : Zones) (robot zone r z : Str)
    → in_zone (clear_zone zones robot zone) r z
      ≡ (not (str_eq robot r && str_eq zone z) && in_zone zones r z)
unfolding clear_zone
in_zone-clear_zone zones robot zone r z = elim (Option-cases (lookup robot zones)) [
  | inl e ↦ ground (arith, e, str_eq_iff robot r)
  | inr (zs, e) ↦ ground (
    arith,
    e,
    lookup-insert r robot (delete zone zs) zones,
    lookup-without r robot zones,
    member-delete z zone zs,
    member-empty z (delete zone zs),
    str_eq_iff robot r,
  )
]

any-member :
    (zs ys : List Str) (z : Str)
    → member z zs ≡ true
    → member z ys ≡ true
    → any (λ x. member x ys) zs ≡ true
unfolding member
any-member [] ys z h k = cc
any-member (x ∷ zs) ys z h k = ground (arith, any-member zs ys z, str_eq_iff x z)

any-found :
    (zs ys : List Str)
    → any (λ x. member x ys) zs ≡ true
    → (z : Str) × (member z zs ≡ true) × (member z ys ≡ true)
unfolding member
any-found [] ys h = cc
any-found (x ∷ zs) ys h = elim (Bool-cases (member x ys)) [
  | inl e ↦ (x, ground (arith, str_eq_refl x), e)
  | inr e ↦ let (z, a, b) = any-found zs ys (ground arith) in (z, ground arith, b)
]

-- Two robots share a zone exactly when there is a zone that both are in.
share_zone_iff :
    (zones : Zones) (a b : Str)
    → (share_zone zones a b ≡ true)
      ↔ ((z : Str) × (in_zone zones a z ≡ true) × (in_zone zones b z ≡ true))
unfolding share_zone
share_zone_iff zones a b = (there (lookup a zones) (lookup b zones) refl refl, back)
  where
    there :
        (o p : Option (List Str))
        → lookup a zones ≡ o
        → lookup b zones ≡ p
        → share_zone zones a b ≡ true
        → (z : Str) × (in_zone zones a z ≡ true) × (in_zone zones b z ≡ true)
    there none p e k h = ground arith
    there (some as') none e k h = ground arith
    there (some as') (some bs) e k h =
        let (z, x, y) = any-found as' bs (ground arith) in (z, ground arith, ground arith)

    both :
        (z : Str) (o p : Option (List Str))
        → lookup a zones ≡ o
        → lookup b zones ≡ p
        → holds o z ≡ true
        → holds p z ≡ true
        → share_zone zones a b ≡ true
    both z none p e k h g = cc
    both z (some as') none e k h g = cc
    both z (some as') (some bs) e k h g = ground (arith, any-member as' bs z h g)

    back :
        ((z : Str) × (in_zone zones a z ≡ true) × (in_zone zones b z ≡ true))
        → share_zone zones a b ≡ true
    back (z, h, g) = both z (lookup a zones) (lookup b zones) refl refl h g

-- Every robot on record is in some zone.
abbrev IsInhabited : Option (List Str) → Type 0
IsInhabited none = Unit
IsInhabited (some zs) = is_empty zs ≡ false

pub record NoEmptySet (zones : Zones) : Type 0 where
  pub at : (r : Str) → IsInhabited (lookup r zones)

add-full : (z : Str) (zs : List Str) → is_empty (add z zs) ≡ false
unfolding add member
add-full z [] = refl
add-full z (x ∷ zs) = ground arith

enter_zone-NoEmptySet :
    (zones : Zones) (robot zone : Str) → NoEmptySet zones → NoEmptySet (enter_zone zones robot zone)
unfolding enter_zone
enter_zone-NoEmptySet zones robot zone w = record {
  at = λ r. ground (
    arith,
    w.at r,
    lookup-insert r robot (add zone (zones_of zones robot)) zones,
    add-full zone (zones_of zones robot),
  );
}

clear_zone-NoEmptySet :
    (zones : Zones) (robot zone : Str) → NoEmptySet zones → NoEmptySet (clear_zone zones robot zone)
unfolding clear_zone
clear_zone-NoEmptySet zones robot zone w = record {
  at = λ r. elim (Option-cases (lookup robot zones)) [
    | inl e ↦ ground (arith, e, w.at r)
    | inr (zs, e) ↦ ground (
      arith,
      e,
      w.at r,
      lookup-insert r robot (delete zone zs) zones,
      lookup-without r robot zones,
    )
  ];
}

module _ {F : Floats} where
  -- No sample leaves a robot on record with an empty set of zones.
  ingest-NoEmptySet :
      (now : ℕ) (st : EvalState F) (topic : Str) (payload : Value F)
      → NoEmptySet st.zones
      → NoEmptySet (ingest now st topic payload).zones
  unfolding ingest
  ingest-NoEmptySet now st topic payload w = elim (Bool-cases (is_zone_event topic)) [
    | inl e ↦
        ground (arith, e, event (split b'/' topic) (string_of (get (codes "robot_id") payload)))
    | inr e ↦ ground (arith, e)
  ]
    where
      event :
          (parts : List Str) (robot : Option Str)
          → NoEmptySet (zone_event topic parts robot st.zones)
      event [] r = w
      event (a ∷ []) r = w
      event (a ∷ b ∷ []) r = w
      event (a ∷ b ∷ c ∷ ps) none = w
      event (a ∷ b ∷ c ∷ ps) (some r) = elim (Bool-cases (ends_with (codes "/entered") topic)) [
        | inl e ↦ rw e (enter_zone-NoEmptySet st.zones r b w)
        | inr e ↦ rw e (clear_zone-NoEmptySet st.zones r b w)
      ]

  -- For a zone id with no slash and a payload whose `robot_id` is a text, `zone/{id}/entered` puts
  -- that robot into that zone, and changes nothing else of the state.
  pub ingest_entered :
      (now : ℕ) (st : EvalState F) (zone robot : Str) (payload : Value F)
      → Lacks b'/' zone
      → string_of (get (codes "robot_id") payload) ≡ some robot
      → ingest now st (codes "zone/" ++ (zone ++ codes "/entered")) payload
        ≡ record st { zones = enter_zone st.zones robot zone }
  unfolding ingest starts_with split
  ingest_entered now st zone robot payload lacks from = ground (
    arith,
    from,
    ends_with-append (codes "zone/" ++ zone) (codes "/entered"),
    split-sep b'/' zone (codes "entered") lacks,
  )
