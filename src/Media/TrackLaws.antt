-- ===== src/Media/TrackLaws.antt =====
-- src/video.rs: which of a capture's tasks have written to the track.
use flo.Base.{
  ℕ, ◌≡◌, refl, Bool, true, false, ◌&&◌, ◌+◌, List, [], ◌∷◌, ◌++◌, any, any-append, nat_eq, ltb,
  length, length-append, All, All-append, Bool-cases, inl, inr, arith,
}
use flo.Media.Capture.{
  Holder, held, detached, dropped, Capture, sample_of, Event, frame, pull_failed, detach, drop,
  task_ends, on_detach, on_drop, is_pending, noted, step, stop, run,
}

-- No number occurs twice.
abbrev pub Once : List ℕ → Type 0
Once [] = Unit
Once (i ∷ is) = (any (nat_eq i) is ≡ false) × Once is

-- Only tasks that have been spawned have written to the track, and none twice.
abbrev pub IsTraced : Capture → Type 0
IsTraced c = All (λ i. ltb i (length c.spawned) ≡ true) c.written × Once c.written

once_lem : (is : List ℕ) (i : ℕ) → any (nat_eq i) is ≡ false → Once is → Once (is ++ i ∷ [])
once_lem [] i k h = (refl, tt)
once_lem (j ∷ js) i k h = (
  ground (arith, k, h.0, any-append (nat_eq j) js (i ∷ [])),
  once_lem js i (ground (arith, k)) h.1,
)

noted-Once :
    (b : Bool) (i : ℕ) (is : List ℕ)
    → (b ≡ true → any (nat_eq i) is ≡ false)
    → Once is
    → Once (noted b i is)
noted-Once true i is k h = once_lem is i (k refl) h
noted-Once false i is k h = h

spawn_lem :
    (is : List ℕ) (n m : ℕ)
    → m ≡ n + 1
    → All (λ i. ltb i n ≡ true) is
    → All (λ i. ltb i m ≡ true) is
spawn_lem [] n m e h = tt
spawn_lem (i ∷ is) n m e h = (ground (arith, h.0, e), spawn_lem is n m e h.1)

noted_lem :
    (b : Bool) (i : ℕ) (is : List ℕ) (n : ℕ)
    → (b ≡ true → ltb i n ≡ true)
    → All (λ j. ltb j n ≡ true) is
    → All (λ j. ltb j n ≡ true) (noted b i is)
noted_lem true i is n k h = All-append (λ j. ltb j n ≡ true) is (i ∷ []) h (k refl, tt)
noted_lem false i is n k h = h

step-IsTraced : (c : Capture) (e : Event) → IsTraced c → IsTraced (step c e)
unfolding step stop
step-IsTraced c (frame bytes) h = elim (Bool-cases (c.pipeline.playing && c.pipeline.connected)) [
  | inl e ↦ rw e (
    spawn_lem c.written (length c.spawned) (length (c.spawned ++ sample_of c bytes ∷ []))
        (length-append c.spawned (sample_of c bytes ∷ [])) h.0,
    h.1,
  )
  | inr e ↦ rw e h
]
step-IsTraced c pull_failed h = h
step-IsTraced c detach h = go c.holder
  where
    go : (x : Holder) → IsTraced (on_detach x c)
    go held = h
    go detached = h
    go dropped = h
step-IsTraced c drop h = go c.holder
  where
    go : (x : Holder) → IsTraced (on_drop x c)
    go held = h
    go detached = h
    go dropped = h
step-IsTraced c (task_ends i success) h = (
  noted_lem (is_pending c i && success) i c.written (length c.spawned) (λ k. ground (arith, k)) h.0,
  noted-Once (is_pending c i && success) i c.written (λ k. ground (arith, k)) h.1,
)

pub run-IsTraced : (c : Capture) (es : List Event) → IsTraced c → IsTraced (run c es)
run-IsTraced c [] h = h
run-IsTraced c (e ∷ es) h = run-IsTraced (step c e) es (step-IsTraced c e h)

pub fresh-IsTraced : (c : Capture) → c.written ≡ [] → IsTraced c
fresh-IsTraced c e = rw e (tt, tt)
