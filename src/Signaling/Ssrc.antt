-- ===== src/Signaling/Ssrc.antt =====
-- src/video.rs: the stream sources of the peers, and the wrap-around of their counter.
use flo.Base.{
  ℕ, suc, ◌+◌, ◌%◌, ◌<◌, ◌≤◌, ◌≡◌, ◌≢◌, ◌⊎◌, inl, inr, refl, List, [], ◌∷◌, ◌++◌, Str, length, All,
  All-map, arith, Outcome, ok, err, panic, Option-cases,
}
use flo.Signaling.Video.{Webrtc, VideoPeer, VideoError, h264_track, build}

abbrev pub Distinct : List ℕ → Type 0
Distinct [] = Unit
Distinct (x ∷ xs) = All (λ y. x ≢ y) xs × Distinct xs

module _ (w : Webrtc) where
  abbrev pub ssrc_of : Outcome VideoError (VideoPeer w) → List ℕ
  ssrc_of (ok v) = v.track.ssrc ∷ []
  ssrc_of (err e) = []
  ssrc_of panic = []

  -- The stream sources of the peers that come of a sequence of builds, for a robot and its peer each.
  abbrev pub ssrcs : ℕ → List (Str × Str) → List ℕ
  ssrcs next [] = []
  ssrcs next ((robot_id, peer_id) ∷ calls) =
      ssrc_of (build w next robot_id peer_id).1 ++ ssrcs (build w next robot_id peer_id).0 calls

  -- A build that fails early leaves the counter; any other moves it on, and has the number before.
  build_cases :
      (next : ℕ) (robot_id peer_id : Str)
      → ((ssrc_of (build w next robot_id peer_id).1 ≡ [])
          × (((build w next robot_id peer_id).0 ≡ next)
              ⊎ ((build w next robot_id peer_id).0 ≡ (next + 1) % 4294967296)))
        ⊎ ((ssrc_of (build w next robot_id peer_id).1 ≡ next ∷ [])
            × ((build w next robot_id peer_id).0 ≡ (next + 1) % 4294967296))
  unfolding build h264_track
  build_cases next robot_id peer_id = elim (Option-cases (w.build_pc robot_id peer_id)) [
    | inl e ↦ rw (build, e) (inl (refl, inl refl))
    | inr (pc, e) ↦ ground arith
  ]

  -- A number that the counter reaches within a number of builds.
  abbrev IsWithin : ℕ → ℕ → ℕ → Type 0
  IsWithin next n y = (d : ℕ) × (d < n) × (y ≡ (next + d) % 4294967296)

  sooner : (next n y : ℕ) → IsWithin next n y → IsWithin next (suc n) y
  sooner next n y (d, h, e) = (d, omega (arith, h), e)

  later : (next n y : ℕ) → IsWithin ((next + 1) % 4294967296) n y → IsWithin next (suc n) y
  later next n y (d, h, e) = (suc d, omega (arith, h), omega (arith, e))

  ssrcs-IsWithin :
      (next : ℕ) (calls : List (Str × Str))
      → next < 4294967296
      → All (IsWithin next (length calls)) (ssrcs next calls)
  ssrcs-IsWithin next [] h = tt
  ssrcs-IsWithin next ((robot_id, peer_id) ∷ calls) h =
      let n = length calls in
      let moved : ℕ = (next + 1) % 4294967296 in
      let after_moved =
        All-map (ssrcs moved calls) (later next n) (ssrcs-IsWithin moved calls (omega arith)) in
      elim (build_cases next robot_id peer_id) [
        | inl (e, inl k) ↦
            rw (e, k) (All-map (ssrcs next calls) (sooner next n) (ssrcs-IsWithin next calls h))
        | inl (e, inr k) ↦ rw (e, k) after_moved
        | inr (e, k) ↦ rw (e, k) ((0, omega arith, omega (arith, h)), after_moved)
      ]

  -- As long as the counter of 32 bits has not come round, that is over up to 2 ^ 32 builds wherever it
  -- starts, no two peers have the same stream source, whichever of the builds fail.
  pub ssrcs-Distinct :
      (next : ℕ) (calls : List (Str × Str))
      → next < 4294967296
      → length calls ≤ 4294967296
      → Distinct (ssrcs next calls)
  ssrcs-Distinct next [] h k = tt
  ssrcs-Distinct next ((robot_id, peer_id) ∷ calls) h k =
      let moved : ℕ = (next + 1) % 4294967296 in
      let rest = ssrcs-Distinct moved calls (omega arith) (omega (arith, k)) in
      elim (build_cases next robot_id peer_id) [
        | inl (e, inl j) ↦ rw (e, j) (ssrcs-Distinct next calls h (omega (arith, k)))
        | inl (e, inr j) ↦ rw (e, j) rest
        | inr (e, j) ↦
            rw (e, j)
              (
                All-map (ssrcs moved calls) (λ y (d, g, f) same. omega (arith, h, k, g, f, same))
                    (ssrcs-IsWithin moved calls (omega arith)),
                rest,
              )
      ]
