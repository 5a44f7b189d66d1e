-- ===== src/CallPicker/Picked.antt =====
-- A click on a row of the picker: webapp/src/components/video_call_picker/video_call_picker.jsx with
-- webapp/src/utils/dmPickerPeers.js and the thunk makeVideoCall of webapp/src/actions/index.js.
use mattermost_plugin_voices.Base.{
  String, Bool, true, false, not, ◌&&◌, Option, none, some, List, [], ◌∷◌, ◌≡◌, ◌≢◌, refl, ◌∙◌,
  keep, is_set, all, contains, eq_iff, arith, Option-cases, inl, inr, ◌==◌,
}
use mattermost_plugin_voices.Base.Js.{Value}
use mattermost_plugin_voices.Users.{User}
use mattermost_plugin_voices.Direct.{Row, Channel, eligible, picker_rows}
use mattermost_plugin_voices.Direct.Laws.{peers, is_fit, picker_rows-is_fit}
use mattermost_plugin_voices.Call.Slice.{Slice, Action}
use mattermost_plugin_voices.Call.Reducers.{reduce}
use mattermost_plugin_voices.Call.World.{World, user_id, dispatch}
use mattermost_plugin_voices.Call.Placing.{make_video_call}
use mattermost_plugin_voices.Call.Consistent.{Consistent}
use mattermost_plugin_voices.Call.Steps.{close_picker, step}
use mattermost_plugin_voices.Call.Guards.{Placed, place-Placed}
use mattermost_plugin_voices.Call.Invariance.{step-Consistent}
use mattermost_plugin_voices.CallPicker.{
  Props, is_after, filtered, rendered, picker_props, handle_pick,
}
use mattermost_plugin_voices.CallPicker.Listed.{is_left, filtered-keep, all-sort}

-- A row names a peer, who is not the user.
abbrev pub is_other : (my_id : String) → Row → Bool
is_other my_id r = is_set r.peer_id && not (r.peer_id == my_id)

eligible-is_set :
    (my_id : String) (users : String → Option User) (seen : List String) (c : Channel) (r : Row)
    → eligible my_id users seen c ≡ some r
    → is_set r.peer_id ≡ true
unfolding eligible
eligible-is_set my_id users seen c r e = ground arith

all-picker_rows_set :
    (my_id : String) (users : String → Option User) (seen : List String) (channels : List Channel)
    → all (λ r. is_set r.peer_id) (picker_rows my_id users seen channels) ≡ true
unfolding picker_rows
all-picker_rows_set my_id users seen [] = refl
all-picker_rows_set my_id users seen (c ∷ cs) = elim (Option-cases (eligible my_id users seen c)) [
  | inl n ↦ rw (n, picker_rows) (all-picker_rows_set my_id users seen cs)
  | inr (r, e) ↦
      rw (e, picker_rows)
        (rw (eligible-is_set my_id users seen c r e)
          (all-picker_rows_set my_id users (r.peer_id ∷ seen) cs))
]

all-is_other :
    (my_id : String) (rows : List Row)
    → all (λ r. is_set r.peer_id) rows ≡ true
    → all (is_fit my_id []) rows ≡ true
    → all (is_other my_id) rows ≡ true
all-is_other my_id [] s f = refl
all-is_other my_id (r ∷ rows) s f = ground (arith, all-is_other my_id rows)

all-keep_of : (p q : Row → Bool) (rows : List Row) → all q rows ≡ true → all q (keep p rows) ≡ true
all-keep_of p q [] h = refl
all-keep_of p q (r ∷ rows) h = ground (arith, all-keep_of p q rows)

all-filtered :
    (q : Row → Bool) (lower : String → String) (after : String → String → Bool) (text : String)
    (props : Props)
    → all q props.peer_rows ≡ true
    → all q (filtered lower after text props) ≡ true
all-filtered q lower after text props h = rw (filtered-keep lower after text props) (
    all-keep_of (is_left lower text) q _
      (all-sort q (is_after after props.hint_peer_id) props.peer_rows h))

is_other-contained :
    (my_id p : String) (rows : List Row)
    → all (is_other my_id) rows ≡ true
    → contains p (peers rows) ≡ true
    → (is_set p ≡ true) × ((p == my_id) ≡ false)
is_other-contained my_id p [] a c = ground arith
is_other-contained my_id p (r ∷ rows) a c =
    ground (arith, eq_iff r.peer_id p, is_other-contained my_id p rows)

rendered-open :
    (lower : String → String) (after : String → String → Bool) (text p : String) (props : Props)
    → contains p (peers (rendered lower after text props)) ≡ true
    → contains p (peers (filtered lower after text props)) ≡ true
unfolding rendered
rendered-open lower after text p props c = ground arith

parse_nothing : String → Option Value
parse_nothing s = none

module _ (w : World) where
  closed : World
  closed = dispatch Action.close_video_call_picker w

  closed-Consistent : Consistent w → Consistent closed
  unfolding closed step
  closed-Consistent h = step-Consistent parse_nothing close_picker w h

  closed-picker : closed.slice.picker_open ≡ false
  unfolding closed dispatch reduce
  closed-picker = refl

  closed_frame :
      (closed.slice.config_loaded ≡ w.slice.config_loaded)
      × (closed.user ≡ w.user)
      × (closed.slice.call_incoming ≡ w.slice.call_incoming)
      × (closed.slice.call_outgoing ≡ w.slice.call_outgoing)
  unfolding closed dispatch reduce
  closed_frame = (refl, refl, refl, refl)

make_video_call-picker :
    (c p : String) (a : Bool) (w : World)
    → (make_video_call c p a w).slice.picker_open ≡ w.slice.picker_open
unfolding make_video_call dispatch reduce
make_video_call-picker c p a w = ground arith

rows_props :
    (q : Row → Bool) (s : Slice) (rows : List Row) (hint : Option (Option String))
    → all q rows ≡ true
    → all q (picker_props s (some rows) hint).peer_rows ≡ true
unfolding picker_props
rows_props q s rows none h = h
rows_props q s rows (some hint) h = h

rows-is_other :
    (my_id : String) (users : String → Option User) (channels : List Channel)
    → all (is_other my_id) (picker_rows my_id users [] channels) ≡ true
rows-is_other my_id users channels =
    all-is_other my_id _ (all-picker_rows_set my_id users [] channels)
      (picker_rows-is_fit my_id users [] channels).0

-- the peer of a row that the open picker lists
listed-is_other :
    (lower : String → String) (after : String → String → Bool) (text p my_id : String)
    (users : String → Option User) (channels : List Channel) (s : Slice)
    (hint : Option (Option String))
    → contains p (
        peers (
          rendered lower after text
            (picker_props s (some (picker_rows my_id users [] channels)) hint)))
      ≡ true
    → (is_set p ≡ true) × (p ≢ my_id)
listed-is_other lower after text p my_id users channels s hint c =
    let props = picker_props s (some (picker_rows my_id users [] channels)) hint in
    let r =
      is_other-contained my_id p _
        (all-filtered (is_other my_id) lower after text props (
          rows_props (is_other my_id) s (picker_rows my_id users [] channels) hint
            (rows-is_other my_id users channels)))
        (rendered-open lower after text p props c) in
    (r.0, λ e. ground (arith, r.1, eq_iff p my_id))

-- Every row of the picker can be called. On a consistent page with a user and a configuration that
-- shows no call, a click on any row that the picker lists from the direct channels of the store, with
-- whatever hint and text, closes the picker, clears its text, and places a video call to the peer of
-- the row, which rings.
pub pick-Placed :
    (lower : String → String) (after : String → String → Bool) (text c p : String)
    (channels : List Channel) (hint : Option (Option String)) (w : World)
    → Consistent w
    → w.slice.config_loaded ≡ true
    → is_set c ≡ true
    → is_set (user_id w.user) ≡ true
    → w.slice.call_incoming ≡ false
    → w.slice.call_outgoing ≡ false
    → contains p (
        peers (
          rendered lower after text (
            picker_props w.slice
              (some (picker_rows (user_id w.user) w.profiles [] channels))
              hint)))
      ≡ true
    → let (t, v) = handle_pick c p (text, w) in
      (t ≡ "") × Placed c p false v × (v.slice.picker_open ≡ false)
unfolding handle_pick step closed
pick-Placed lower after text c p channels hint w h l sc su i o listed =
    let (sp, ne) =
      listed-is_other lower after text p (user_id w.user) w.profiles channels w.slice hint listed in
    let (el, eu, ei, eo) = closed_frame w in
    (
      refl,
      place-Placed parse_nothing c p false (closed w) (closed-Consistent w h) (el ∙ l) sc sp su ne
          (ei ∙ i) (eo ∙ o),
      make_video_call-picker c p false (closed w) ∙ closed-picker w,
    )
