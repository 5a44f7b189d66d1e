-- ===== src/Startup.antt =====
-- What the plugin does when it is loaded, and its buttons in a channel: webapp/src/index.js. What
-- is registered with the host is in Startup/Registration.antt.
pub mod Once
pub mod Registration
mod Tests
use mattermost_plugin_voices.Base.{
  ℕ, suc, String, Bool, true, false, not, Option, none, some, List, [], ◌∷◌, is_set, if◌then◌else◌,
}
use mattermost_plugin_voices.Base.Js.{Value, str, get, truthy, text_of}
use mattermost_plugin_voices.Direct.{Channel, direct_peer}
use mattermost_plugin_voices.Call.Slice
use mattermost_plugin_voices.Call.World.{World, dispatch, user_id}
use mattermost_plugin_voices.Call.Placing.{make_video_call}

-- `whenStoreReady` as it waits: whether `onChange` is subscribed, and how often `run` was called
pub record Waiting : Type 0 where
  pub subscribed : Bool
  pub runs : ℕ

-- `onChange`; `ready` is what `isReady()` answers.
unfoldable pub on_change : (ready : Bool) → Waiting → Waiting
on_change ready s = if not ready then s else record { subscribed = false; runs = suc s.runs }

-- `whenStoreReady`: what `isReady()` answers at first, and in the call of `onChange` at its end
unfoldable pub when_store_ready : (at_first at_end : Bool) → Waiting
unfolding on_change
when_store_ready at_first at_end =
    if at_first
    then record { subscribed = false; runs = 1 }
    else on_change at_end (record { subscribed = true; runs = 0 })

-- The calls of `onChange` by the store, whether or not it is still subscribed, with what `isReady()`
-- answers in each.
unfoldable pub all_changes : (calls : List Bool) → Waiting → Waiting
unfolding on_change
all_changes [] s = s
all_changes (ready ∷ rest) s = all_changes rest (on_change ready s)

-- `toChannelId`
unfoldable pub to_channel_id : Value → Option String
to_channel_id (str s) = if is_set s then some s else none
to_channel_id v = if truthy (get "id" v) then some (text_of (get "id" v)) else none

-- `openPicker`
abbrev pub open_picker : (hint : Option String) → World → World
open_picker hint w = dispatch (Slice.Action.open_video_call_picker hint) w

-- `getDirectMessagePeerUserId(state, channel)` of a channel that may be missing
abbrev pub peer_of : (my_id : String) → Option Channel → Option String
peer_of my_id none = none
peer_of my_id (some c) = direct_peer my_id c

-- `channelId ? getChannel(state, channelId) : null`
abbrev pub channel_of : (channels : String → Option Channel) → Option String → Option Channel
channel_of channels none = none
channel_of channels (some id) = channels id

-- `startCallFromChannel`; `channels` is the host's store, and `call_id` the id that the call gets.
unfoldable pub start_call_from_channel :
    (channels : String → Option Channel) (call_id : String)
    → Value
    → (audio_only : Bool) → World
    → World
unfolding to_channel_id direct_peer make_video_call
start_call_from_channel channels call_id arg audio_only w =
    elim (peer_of (user_id w.user) (channel_of channels (to_channel_id arg))) [
      | none ↦ open_picker (to_channel_id arg) w
      | some peer_id ↦ make_video_call call_id peer_id audio_only w
    ]
