-- ===== src/Media/CaptureLaws.antt =====
-- src/video.rs: for which frames a capture spawns a task.
use mathlib.Core.List.{append-nil, append_assoc}
use flo.Base.{
  ℕ, ◌≡◌, refl, ap, sym, ◌∙◌, Bool, true, false, Option, none, some, List, [], ◌∷◌, ◌++◌, Str, map,
  ok, arith, >>=-eq-ok, ok-injective, ok_or, unwrap,
}
use flo.Media.Source.{SourceSpec}
use flo.Media.Capture.{
  MediaError, no_runtime, no_parameters, no_sink, not_playing, Gst, require, build, start, Sample,
  Holder, held, detached, dropped, Capture, first, start_capture, sample_of, Event, frame,
  pull_failed, task_ends, detach, drop, on_detach, on_drop, step, stop, run, frames_of,
}

unwrap_lem : (o : Option ℕ) {n : ℕ} → unwrap {E = MediaError} o ≡ ok n → o ≡ some n
unwrap_lem none h = cc
unwrap_lem (some m) h = ap some (ok-injective h)

-- A sink with its callback, on a pipeline that plays.
abbrev pub IsLive : Capture → Type 0
IsLive c = (c.pipeline.playing ≡ true) × (c.pipeline.connected ≡ true)

frame_live :
    (c : Capture) (bytes : List ℕ)
    → IsLive c
    → step c (frame bytes) ≡ record c { spawned = c.spawned ++ sample_of c bytes ∷ [] }
unfolding step
frame_live c bytes live = ground (arith, live.0, live.1)

frame_stopped :
    (c : Capture) (bytes : List ℕ) → c.pipeline.playing ≡ false → step c (frame bytes) ≡ c
unfolding step
frame_stopped c bytes stopped = ground (arith, stopped)

pub detach_lem : (c : Capture) {h : Holder} → c.holder ≡ h → step c detach ≡ on_detach h c
unfolding step
detach_lem c e = ap (λ h. on_detach h c) e

drop_lem : (c : Capture) {h : Holder} → c.holder ≡ h → step c drop ≡ on_drop h c
unfolding step
drop_lem c e = ap (λ h. on_drop h c) e

-- The rest of a run after a step.
after_step : (es : List Event) {c d : Capture} → c ≡ d → (run c es).spawned ≡ (run d es).spawned
after_step es e = ap (λ c. (run c es).spawned) e

-- A dropped capture spawns nothing more.
run_dropped :
    (c : Capture) (es : List Event)
    → c.holder ≡ dropped
    → c.pipeline.playing ≡ false
    → (run c es).spawned ≡ c.spawned
unfolding step
run_dropped c [] h k = refl
run_dropped c (frame bytes ∷ es) h k =
    after_step es (frame_stopped c bytes k) ∙ run_dropped c es h k
run_dropped c (pull_failed ∷ es) h k = run_dropped c es h k
run_dropped c (task_ends i success ∷ es) h k = run_dropped (step c (task_ends i success)) es h k
run_dropped c (detach ∷ es) h k = after_step es (detach_lem c h) ∙ run_dropped c es h k
run_dropped c (drop ∷ es) h k = after_step es (drop_lem c h) ∙ run_dropped c es h k

abbrev pub samples : Capture → List (List ℕ) → List Sample
samples c frames = map (sample_of c) frames

frame_lem :
    (c : Capture) (bytes : List ℕ) (es : List Event) (frames : List (List ℕ))
    → IsLive c
    → (run (record c { spawned = c.spawned ++ sample_of c bytes ∷ [] }) es).spawned
      ≡ (c.spawned ++ sample_of c bytes ∷ []) ++ samples c frames
    → (run (step c (frame bytes)) es).spawned ≡ c.spawned ++ samples c (bytes ∷ frames)
unfolding sample_of
frame_lem c bytes es frames live later =
    after_step es (frame_live c bytes live)
    ∙ later
    ∙ append_assoc c.spawned (sample_of c bytes ∷ []) (samples c frames)

-- A detached capture spawns a task for every frame.
pub run_detached :
    (c : Capture) (es : List Event)
    → c.holder ≡ detached
    → IsLive c
    → (run c es).spawned ≡ c.spawned ++ samples c (frames_of detached es)
unfolding sample_of step
run_detached c [] h live = sym (append-nil c.spawned)
run_detached c (frame bytes ∷ es) h live =
    frame_lem c bytes es _ live
      (run_detached (record c { spawned = c.spawned ++ sample_of c bytes ∷ [] }) es h live)
run_detached c (pull_failed ∷ es) h live = run_detached c es h live
run_detached c (task_ends i success ∷ es) h live =
    run_detached (step c (task_ends i success)) es h live
run_detached c (detach ∷ es) h live = after_step es (detach_lem c h) ∙ run_detached c es h live
run_detached c (drop ∷ es) h live = after_step es (drop_lem c h) ∙ run_detached c es h live

run_held :
    (c : Capture) (es : List Event)
    → c.holder ≡ held
    → IsLive c
    → (run c es).spawned ≡ c.spawned ++ samples c (frames_of held es)
unfolding sample_of step stop
run_held c [] h live = sym (append-nil c.spawned)
run_held c (frame bytes ∷ es) h live =
    frame_lem c bytes es _ live
      (run_held (record c { spawned = c.spawned ++ sample_of c bytes ∷ [] }) es h live)
run_held c (pull_failed ∷ es) h live = run_held c es h live
run_held c (task_ends i success ∷ es) h live = run_held (step c (task_ends i success)) es h live
run_held c (detach ∷ es) h live =
    after_step es (detach_lem c h) ∙ run_detached (record c { holder = detached }) es refl live
run_held c (drop ∷ es) h live =
    after_step es (drop_lem c h)
    ∙ run_dropped (record c { holder = dropped; pipeline = stop c.pipeline }) es refl refl
    ∙ sym (append-nil c.spawned)

module _ (mime_type : Str) (gst : Gst) (has_runtime : Bool) (ssrcs : List ℕ)
    (codecs : Option (List ℕ)) (source : SourceSpec) (width height fps : ℕ) (c : Capture) where
  -- A capture that has started: its handle is held, its pipeline plays, and it is for the track's first
  -- stream source.
  pub start_capture_lem :
      start_capture mime_type gst has_runtime ssrcs codecs source width height fps ≡ ok c
      → (c.holder ≡ held)
        × IsLive c
        × (c.spawned ≡ [])
        × (first ssrcs ≡ some c.ssrc)
        × (c.written ≡ [])
  unfolding start_capture start
  start_capture_lem h =
      let (u, e1, h1) = >>=-eq-ok (require has_runtime no_runtime) _ h in
      let (pipeline, e2, h2) = >>=-eq-ok (build gst source width height fps) _ h1 in
      let (ssrc, e3, h3) = >>=-eq-ok (unwrap (first ssrcs)) _ h2 in
      let (types, e4, h4) = >>=-eq-ok (ok_or codecs no_parameters) _ h3 in
      let (playing, e5, h5) = >>=-eq-ok (start gst pipeline) _ h4 in
      let (v, e6, h6) = >>=-eq-ok (require gst.has_sink no_sink) _ e5 in
      let (w, e7, h7) = >>=-eq-ok (require gst.plays not_playing) _ h6 in
      let same = sym (ok-injective h5) in
      let running = sym (ok-injective h7) in
      (
        ap (λ x. x.holder) same,
        (
          ap (λ x. x.pipeline.playing) same ∙ ap (λ x. x.playing) running,
          ap (λ x. x.pipeline.connected) same ∙ ap (λ x. x.connected) running,
        ),
        ap (λ x. x.spawned) same,
        unwrap_lem (first ssrcs) e3 ∙ ap (λ x. some x.ssrc) (sym same),
        ap (λ x. x.written) same,
      )

  -- Where a capture starts, its pipeline plays, and the tasks that it spawns are one for each frame
  -- that comes before its handle is dropped, in order, or for all where the handle is detached before.
  start_capture-spawned :
      (es : List Event)
      → start_capture mime_type gst has_runtime ssrcs codecs source width height fps ≡ ok c
      → (c.pipeline.playing ≡ true) × ((run c es).spawned ≡ samples c (frames_of held es))
  start_capture-spawned es h =
      let (holds, live, nothing, _, _) = start_capture_lem h in
      (live.0, run_held c es holds live ∙ ap (λ x. x ++ samples c (frames_of held es)) nothing)
