-- ===== src/Call/Invariance/Sharing.antt =====
-- Media and the connected peer, Call/Sharing.antt, against Call/Consistent.antt.
use mattermost_plugin_voices.Base.{ℕ, String, Bool, none, ◌≡◌, refl, ◌⊎◌, inl, inr, arith}
use mattermost_plugin_voices.Base.Js.{Value}
use mattermost_plugin_voices.Media.{Track, MediaStream}
use mattermost_plugin_voices.Call.Reducers.{reduce}
use mattermost_plugin_voices.Call.Session.{connected, set_peer}
use mattermost_plugin_voices.Call.Slice.{Action}
use mattermost_plugin_voices.Call.World.{World, dispatch}
use mattermost_plugin_voices.Call.Consistent.{
  Consistent, DeclineFits-same, Advanced, Advanced-Consistent, Untouched, Untouched-Consistent,
}
use mattermost_plugin_voices.Call.Ended.{end_call-Consistent}
use mattermost_plugin_voices.Call.Sharing.{
  Capture, MediaAnswer, captured, refused, granted, rejected, share_media, peer_found, peer_data,
  peer_stream, peer_track, peer_disconnected, audio_toggle, video_toggle, camera_answered,
}

pub share_media-Untouched :
    (peer : ℕ) (audio_only : Bool) (c : Capture) (w : World)
    → Untouched w (share_media peer audio_only c w)
unfolding share_media reduce
share_media-Untouched peer audio_only (refused e) w = ground arith
share_media-Untouched peer audio_only (captured m c) w = ground arith

pub peer_data-Untouched : (peer : ℕ) (m : Value) (w : World) → Untouched w (peer_data peer m w)
unfolding peer_data reduce
peer_data-Untouched peer m w = ground arith

pub peer_stream-Untouched : (m : MediaStream) (w : World) → Untouched w (peer_stream m w)
unfolding peer_stream reduce
peer_stream-Untouched m w = ground arith

pub peer_track-Untouched :
    (t : Track) (m : MediaStream) (w : World) → Untouched w (peer_track t m w)
unfolding peer_track reduce
peer_track-Untouched t m w = ground arith

pub audio_toggle-Untouched : (w : World) → Untouched w (audio_toggle w)
unfolding audio_toggle reduce
audio_toggle-Untouched w = ground arith

pub video_toggle-Untouched : (w : World) → Untouched w (video_toggle w)
unfolding video_toggle reduce
video_toggle-Untouched w = ground arith

pub camera_answered-Untouched :
    (call_id : String) (peer preview_id : ℕ) (a : MediaAnswer) (w : World)
    → Untouched w (camera_answered call_id peer preview_id a w)
unfolding camera_answered reduce
camera_answered-Untouched call_id peer preview_id (rejected e) w = ground arith
camera_answered-Untouched call_id peer preview_id (granted m) w = ground arith

peer_found-cases :
    (call_id user_id : String) (peer : ℕ) (w : World)
    → let v = peer_found call_id user_id peer w in
      (v ≡ w)
      ⊎ (Advanced connected w v × (v.decline ≡ w.decline) × (v.session.hubs ≡ w.session.hubs))
unfolding peer_found reduce
peer_found-cases call_id user_id peer w = ground arith

pub peer_found-Consistent :
    (call_id user_id : String) (peer : ℕ) (w : World)
    → Consistent w
    → Consistent (peer_found call_id user_id peer w)
peer_found-Consistent call_id user_id peer w h = elim (peer_found-cases call_id user_id peer w) [
  | inl e ↦ rw e h
  | inr (a, d, k) ↦ Advanced-Consistent connected w _ refl refl h a (
      rw (d, a.outgoing)
        (DeclineFits-same w.decline w.session _ w.slice.call_outgoing a.call_id k h.declines))
]

lost_frame :
    (w : World)
    → Untouched w (dispatch Action.peer_lost (record w { session = set_peer none w.session }))
unfolding set_peer dispatch reduce
lost_frame w = ground arith

pub peer_disconnected-Consistent : (w : World) → Consistent w → Consistent (peer_disconnected w)
unfolding peer_disconnected
peer_disconnected-Consistent w h = end_call-Consistent _ (Untouched-Consistent w _ h (lost_frame w))
