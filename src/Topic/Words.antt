-- ===== src/Topic/Words.antt =====
-- src/topic.rs: the chunks of a topic, and a word in a topic of several chunks.
use flo.Base.{
  ℕ, ◌≡◌, refl, ◌∷◌, [], ◌++◌, Str, Lacks, is_empty, false, contains_str, starts_with, ◌||◌, arith,
}

-- A chunk of a zenoh key expression that is no wildcard.
abbrev pub IsChunk : Str → Type 0
IsChunk s =
    (is_empty s ≡ false) × Lacks b'/' s × Lacks b'*' s × Lacks b'$' s × Lacks b'?' s × Lacks b'#' s

-- A word in a text with a slash lies on one side of it.
starts_with-slash : (p s t : Str) → Lacks b'/' p → starts_with p (s ++ b'/' ∷ t) ≡ starts_with p s
unfolding starts_with
starts_with-slash [] s t h = refl
starts_with-slash (c ∷ p) [] t h = ground arith
starts_with-slash (c ∷ p) (d ∷ s) t h = ground (arith, starts_with-slash p s t)

pub contains_str-slash :
    (c : ℕ) (p s t : Str)
    → Lacks b'/' (c ∷ p)
    → contains_str (c ∷ p) (s ++ b'/' ∷ t) ≡ (contains_str (c ∷ p) s || contains_str (c ∷ p) t)
unfolding contains_str starts_with
contains_str-slash c p [] t h = ground arith
contains_str-slash c p (d ∷ s) t h =
    ground (arith, contains_str-slash c p s t h, starts_with-slash (c ∷ p) (d ∷ s) t h)
