-- ===== src/Call/Capture.antt =====
-- How the camera and the microphone are asked for, and what becomes of the stream: `getUserMedia` and
-- `captureAndShareMedia` of webapp/src/actions/index.js.
use mattermost_plugin_voices.Base.{
  ℕ, String, Bool, true, false, not, Option, none, some, List, [], ◌∷◌, ◌++◌, ◌≡◌, refl, ap, ◌∙◌,
  all, arith,
}
use mattermost_plugin_voices.Media.{MediaStream}
use mattermost_plugin_voices.Call.Session.{CallSession, new_session}
use mattermost_plugin_voices.Call.World.{World}
use mattermost_plugin_voices.Call.Ending.{end_call}
use mattermost_plugin_voices.Call.Consistent.{Consistent}
use mattermost_plugin_voices.Call.Ended.{end_call-Ended}
use mattermost_plugin_voices.Call.Sharing.{
  Caps, MediaAnswer, rejected, granted, captured, try_steps, requests, ladder, share_media,
}

-- A browser that refuses a rung.
abbrev pub is_rejected : MediaAnswer → Bool
is_rejected (rejected e) = true
is_rejected (granted m) = false

rejected-cases : (a : MediaAnswer) → is_rejected a ≡ true → (e : String) × (a ≡ rejected e)
rejected-cases (rejected e) h = (e, refl)
rejected-cases (granted m) h = ground arith

-- The callback gets the stream of the first rung that the browser grants, and the rungs before it were
-- asked for in order. If the callback does not throw, that is all: the rungs after it are not asked
-- for. If it throws, the ladder goes on with the rung after it, with the callback's error as the last
-- one, as if the browser had refused.
pub try_steps_first :
    (answer : Caps → MediaAnswer) (throws : Caps → Option String) (before after : List Caps)
    (rung : Caps) (m : MediaStream) (e : Option String)
    → all (λ c. is_rejected (answer c)) before ≡ true
    → answer rung ≡ granted m
    → (try_steps answer throws (before ++ (rung ∷ after)) e
        ≡ captured m rung
          ∷ elim (throws rung) [ none ↦ [] | some x ↦ try_steps answer throws after (some x) ])
      × (requests answer throws (before ++ (rung ∷ after))
          ≡ before
            ++ (rung ∷ elim (throws rung) [ none ↦ [] | some x ↦ requests answer throws after ]))
unfolding try_steps requests
try_steps_first answer throws [] after rung m e r g =
    (rw (g, try_steps) refl, rw (g, requests) refl)
try_steps_first answer throws (c ∷ before) after rung m e r g =
    let (x, k) = rejected-cases (answer c) (ground arith) in
    let (first, asked) =
      try_steps_first answer throws before after rung m (some x) (ground arith) g in
    (rw (k, try_steps) first, rw (k, requests) (ap (λ cs. c ∷ cs) asked))

-- An audio call never asks for the camera, whatever the browser answers and the callback throws.
pub ladder_audio_only :
    (answer : Caps → MediaAnswer) (throws : Caps → Option String) (w : World)
    → w.slice.call_audio_only ≡ true
    → all (λ c. not c.video) (requests answer throws (ladder w)) ≡ true
unfolding requests ladder
ladder_audio_only answer throws w a = ground arith

share_media-session :
    (peer : ℕ) (a : Bool) (m : MediaStream) (c : Caps) (w : World)
    → (share_media peer a (captured m c) w).session ≡ record w.session { stream = some m }
unfolding share_media
share_media-session peer a m c w = ground arith

-- A stream that the browser grants after the call has ended is kept: the session is idle and holds
-- nothing but this stream.
pub late_capture_kept :
    (peer : ℕ) (a : Bool) (m : MediaStream) (c : Caps) (w : World)
    → Consistent w
    → (share_media peer a (captured m c) (end_call w)).session
      ≡ record new_session { stream = some m }
late_capture_kept peer a m c w h =
    share_media-session peer a m c (end_call w)
    ∙ ap (λ (s : CallSession). record s { stream = some m }) (end_call-Ended w h).session
