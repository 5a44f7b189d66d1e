-- ===== src/Direct/Picker.antt =====
-- Which peers the picker shows: webapp/src/utils/dmPickerPeers.js.
use mattermost_plugin_voices.Base.{
  String, true, false, ◌||◌, Option, some, List, [], ◌∷◌, ◌++◌, ◌≡◌, refl, inl, inr, contains,
  is_set, eq_iff, arith, Option-cases, Bool-cases,
}
use mattermost_plugin_voices.Users.{User}
use mattermost_plugin_voices.Direct.{Channel, Row, direct_peer, eligible, picker_rows}
use mattermost_plugin_voices.Direct.Laws.{peers}

eligible-seen :
    (my_id : String) (users : String → Option User) (seen : List String) (c : Channel) (r : Row)
    → eligible my_id users [] c ≡ some r
    → contains r.peer_id seen ≡ false
    → eligible my_id users seen c ≡ some r
unfolding eligible
eligible-seen my_id users seen c r e n = elim (Option-cases (direct_peer my_id c)) [
  | inl d ↦ ground arith
  | inr (p, d) ↦ ground arith
]

complete_from :
    (my_id : String) (users : String → Option User) (seen : List String)
    (before after : List Channel) (c : Channel) (r : Row)
    → eligible my_id users [] c ≡ some r
    → (contains r.peer_id seen
        || contains r.peer_id (peers (picker_rows my_id users seen (before ++ (c ∷ after)))))
      ≡ true
unfolding picker_rows
complete_from my_id users seen [] after c r e = elim (Bool-cases (contains r.peer_id seen)) [
  | inl t ↦ rw t refl
  | inr f ↦
      rw (eligible-seen my_id users seen c r e f, picker_rows)
        (ground (arith, eq_iff r.peer_id r.peer_id))
]
complete_from my_id users seen (d ∷ before) after c r e =
    elim (Option-cases (eligible my_id users seen d)) [
      | inl n ↦ rw (n, picker_rows) (complete_from my_id users seen before after c r e)
      | inr (q, k) ↦
          rw (k, picker_rows)
            (ground (arith, complete_from my_id users (q.peer_id ∷ seen) before after c r e))
    ]

-- A peer whose channel is a direct one, whom the store knows, and who is neither deleted nor a bot, is
-- in the picker, wherever the channel stands and whatever else the user record holds.
pub picker_rows_complete :
    (my_id p : String) (users : String → Option User) (before after : List Channel) (c : Channel)
    (u : User)
    → c.is_direct ≡ true
    → direct_peer my_id c ≡ some p
    → is_set p ≡ true
    → users p ≡ some u
    → u.deleted ≡ false
    → u.is_bot ≡ false
    → contains p (peers (picker_rows my_id users [] (before ++ (c ∷ after)))) ≡ true
unfolding eligible
picker_rows_complete my_id p users before after c u direct peer set known kept person =
    complete_from my_id users [] before after c
      (record { channel_id = c.id; peer_id = p; user = u }) (ground arith)
