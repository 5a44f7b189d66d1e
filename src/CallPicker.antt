-- ===== src/CallPicker.antt =====
-- The picker of a peer for a call: webapp/src/components/video_call_picker/video_call_picker.jsx and
-- index.js. Given are `toLowerCase`, and whether `localeCompare` puts one name after another.
pub mod Listed
pub mod Picked
mod Tests
use mattermost_plugin_voices.Base.{
  String, Bool, true, false, not, ◌&&◌, ◌||◌, Option, none, some, List, [], ◌∷◌, keep, is_set,
  if◌then◌else◌, ◌==◌,
}
use mattermost_plugin_voices.Base.Text.{trim}
use mattermost_plugin_voices.Users.{user_display_name}
use mattermost_plugin_voices.Invite.Eligible.{includes}
use mattermost_plugin_voices.Direct.{Row}
use mattermost_plugin_voices.Call.Slice.{Slice, Action}
use mattermost_plugin_voices.Call.World.{World, dispatch}
use mattermost_plugin_voices.Call.Placing.{make_video_call}

-- What `mapStateToProps` gives the picker; no hint is the empty text.
pub record Props : Type 0 where
  pub is_open : Bool
  pub peer_rows : List Row
  pub hint_peer_id : String

abbrev pub text_or_empty : Option String → String
text_or_empty none = ""
text_or_empty (some s) = s

-- `mapStateToProps`, where reading the rows, or the hint behind them, may throw
unfoldable pub picker_props :
    Slice → (rows : Option (List Row)) (hint : Option (Option String)) → Props
picker_props s none hint = record { is_open = s.picker_open; peer_rows = []; hint_peer_id = "" }
picker_props s (some rows) none = record {
  is_open = s.picker_open;
  peer_rows = rows;
  hint_peer_id = "";
}
picker_props s (some rows) (some hint) = record {
  is_open = s.picker_open;
  peer_rows = rows;
  hint_peer_id = text_or_empty hint;
}

abbrev pub name_of : Row → String
name_of r = user_display_name (some r.user)

abbrev pub is_hinted : (hint : String) → Row → Bool
is_hinted hint r = is_set hint && r.peer_id == hint

-- The comparison of `sort` puts a after b.
unfoldable pub is_after : (after : String → String → Bool) (hint : String) (a b : Row) → Bool
unfolding user_display_name
is_after after hint a b =
    if is_hinted hint a
    then false
    else if is_hinted hint b
    then true
    else after (name_of a) (name_of b)

-- `sort`, which keeps the order of rows that compare as equal
abbrev pub insert_row : (is_later : Row → Row → Bool) → Row → List Row → List Row
insert_row is_later r [] = r ∷ []
insert_row is_later r (x ∷ rows) =
    if is_later r x then x ∷ insert_row is_later r rows else r ∷ (x ∷ rows)

abbrev pub sort_rows : (is_later : Row → Row → Bool) → List Row → List Row
sort_rows is_later [] = []
sort_rows is_later (r ∷ rows) = insert_row is_later r (sort_rows is_later rows)

-- the test of `filter`, for a query that is not empty
unfoldable pub has_query : (lower : String → String) (query : String) → Row → Bool
unfolding includes user_display_name
has_query lower query r =
    includes query (lower (name_of r)) || includes query (lower r.user.username)

-- `filtered`
unfoldable pub filtered :
    (lower : String → String) (after : String → String → Bool) (text : String) → Props → List Row
unfolding is_after has_query trim
filtered lower after text props =
    let sorted = sort_rows (is_after after props.hint_peer_id) props.peer_rows in
    let query = lower (trim text) in
    if is_set query then keep (has_query lower query) sorted else sorted

-- the rows that `render` lists
unfoldable pub rendered :
    (lower : String → String) (after : String → String → Bool) (text : String) → Props → List Row
unfolding filtered
rendered lower after text props = if not props.is_open then [] else filtered lower after text props

-- `handlePick` and `handleClose`, on the text of the filter and the page
unfoldable pub handle_pick : (call_id peer_id : String) → String × World → String × World
unfolding dispatch make_video_call
handle_pick call_id peer_id (text, w) =
    ("", make_video_call call_id peer_id false (dispatch Action.close_video_call_picker w))

unfoldable pub handle_close : String × World → String × World
unfolding dispatch
handle_close (text, w) = ("", dispatch Action.close_video_call_picker w)
