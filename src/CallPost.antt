-- ===== src/CallPost.antt =====
-- The posts of a call in the direct channel: webapp/src/utils/callInvitePosts.js, which makes them, and
-- webapp/src/components/post_types/webrtc_invite_post.jsx, which shows the first. Given are
-- `JSON.parse`, which may give no value, and the profiles of the host's store.
pub mod Shown
mod Tests
use Prim.Native.String.{◌++◌}
use mattermost_plugin_voices.Base.{
  ℕ, String, Bool, true, false, not, ◌&&◌, ◌||◌, Option, none, some, is_set, or_else, if◌then◌else◌,
  ◌==◌,
}
use mattermost_plugin_voices.Base.Js.{
  Value, undef, str, num, obj, Fields, field, end, get, truthy, is_text, text_of,
}
use mattermost_plugin_voices.Users.{User, full_name}
use mattermost_plugin_voices.Invite.Post.{parsed}

-- `peerDisplay`
unfoldable pub peer_display : Option User → String
unfolding full_name
peer_display none = "Someone"
peer_display (some u) = or_else (full_name u) (or_else u.username "Someone")

-- `at`, of a user that is there
unfoldable pub at_name : User → String
unfolding peer_display
at_name u = if is_set u.username then "@" ++ u.username else peer_display (some u)

abbrev pub invite_post_type : String
invite_post_type = "custom_webrtc_video_invite"

abbrev pub invite_props_key : String
invite_props_key = "webrtc_invite"

-- the data of the request of `createVideoInvitePost`; `now` is `Date.now()`.
unfoldable pub create_video_invite_post :
    (channel_id : String) (caller : User) (callee_id call_id : String) (now : ℕ) → Value
unfolding at_name
create_video_invite_post channel_id caller callee_id call_id now = obj (
    field "channel_id" (str channel_id) (
      field "message"
        (str (
          "**Incoming video call** — "
          ++ (at_name caller ++ " is calling you. Use the call window to accept or decline.")))
        (field "type" (str invite_post_type) (
          field "props"
            (obj (
              field invite_props_key
                (obj (
                  field "call_id" (str call_id) (
                    field "caller_id" (str caller.id) (
                      field "callee_id" (str callee_id)
                        (field "status" (str "ringing") (field "created_at" (num now) end))))))
                end))
            end))))

-- the data of the request of `sendCallDeclinedEphemeral`
unfoldable pub send_call_declined_ephemeral :
    (channel_id caller_user_id : String) (callee : User) → Value
unfolding at_name
send_call_declined_ephemeral channel_id caller_user_id callee = obj (
    field "user_id" (str caller_user_id) (
      field "post"
        (obj (
          field "channel_id" (str channel_id) (
            field "message"
              (str ("**Video call declined** — " ++ (at_name callee ++ " declined the call.")))
              end)))
        end))

-- `parseInvite`, of the properties of a post
unfoldable pub parse_invite : (parse : String → Option Value) (props : Value) → Option Value
parse_invite parse props = parsed parse (get invite_props_key props)

-- `displayName`
unfoldable pub display_name : Option User → String
unfolding full_name
display_name none = "Someone"
display_name (some u) = or_else (full_name u) u.username

-- `callerName` of `mapStateToProps`
unfoldable pub caller_name : (profiles : String → Option User) → Option Value → String
unfolding display_name
caller_name profiles none = ""
caller_name profiles (some v) =
    if truthy (get "caller_id" v) then display_name (profiles (text_of (get "caller_id" v))) else ""

-- what the post says to a user, of an invitation that has both ids
unfoldable pub said : (name current_user_id : String) → Value → String
said name current_user_id v =
    if is_text (get "callee_id" v) current_user_id
    then or_else name "Someone"
      ++ " wants to start a video call. Use the call window to accept or decline."
    else if is_text (get "caller_id" v) current_user_id
    then "You started a video call."
    else "Video call between teammates."

abbrev pub shown_of : (name current_user_id : String) → Option Value → Option String
shown_of name current_user_id none = none
shown_of name current_user_id (some v) =
    if not (truthy (get "caller_id" v)) || not (truthy (get "callee_id" v))
    then none
    else some (said name current_user_id v)

-- what the post shows, if it shows anything
unfoldable pub shown :
    (parse : String → Option Value) (profiles : String → Option User) (current_user_id : String)
    (props : Value)
    → Option String
unfolding parse_invite caller_name said
shown parse profiles current_user_id props =
    let v = parse_invite parse props in shown_of (caller_name profiles v) current_user_id v
