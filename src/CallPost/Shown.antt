-- ===== src/CallPost/Shown.antt =====
-- The post of a call as its makers mean it: webapp/src/utils/callInvitePosts.js and
-- webapp/src/components/post_types/webrtc_invite_post.jsx.
use Prim.Native.String.{◌++◌}
use mattermost_plugin_voices.Base.{
  ℕ, String, true, Option, some, ◌≡◌, is_set, or_else, arith, if◌then◌else◌, ◌==◌,
}
use mattermost_plugin_voices.Base.Js.{Value, get}
use mattermost_plugin_voices.Users.{User}
use mattermost_plugin_voices.CallPost.{
  create_video_invite_post, display_name, shown, parse_invite, caller_name, said,
}

-- What a post of a call that the caller made, once the server has it, shows to a user: the callee reads
-- who calls, by the profile of the caller, the caller that the call was started, and anyone else that
-- there is a call. The ids of the two are not empty.
pub shown-create :
    (parse : String → Option Value) (profiles : String → Option User)
    (channel_id callee_id call_id viewer : String) (caller : User) (now : ℕ)
    → is_set caller.id ≡ true
    → is_set callee_id ≡ true
    → shown parse profiles viewer
        (get "props" (create_video_invite_post channel_id caller callee_id call_id now))
      ≡ some (
          if callee_id == viewer
          then or_else (display_name (profiles caller.id)) "Someone"
            ++ " wants to start a video call. Use the call window to accept or decline."
          else if caller.id == viewer
          then "You started a video call."
          else "Video call between teammates.")
unfolding shown create_video_invite_post parse_invite caller_name said
shown-create parse profiles channel_id callee_id call_id viewer caller now i j =
    ground (arith, i, j)
