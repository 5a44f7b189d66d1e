-- ===== src/Direct/Laws.antt =====
-- Laws of the peers of direct channels: webapp/src/utils/dmPeer.js,
-- webapp/src/utils/dmPickerPeers.js and webapp/src/utils/dmChannel.js.
use Prim.Native.String.{◌++◌}
use Prim.Native.String.append
use Prim.Native.Char.{Char}
use mattermost_plugin_voices.Base.{
  String, Bool, true, false, not, ◌&&◌, Option, some, List, [], ◌∷◌, map, ◌≡◌, ◌≢◌, refl, ◌∙◌, inl,
  inr, all, contains, is_set, eq_iff, ◌==◌, arith, Option-cases, Bool-cases,
}
use mattermost_plugin_voices.Users.{User}
use mattermost_plugin_voices.Direct.{
  Channel, Row, is_underscore, split_held, peer_of_ids, direct_peer, eligible, picker_rows,
}

-- no underscore
abbrev pub is_plain : String → Bool
is_plain String.[] = true
is_plain (String.◌∷◌ c s) = not (is_underscore c) && is_plain s

split_plain : (b : String) → is_plain b ≡ true → split_held false b ≡ b ∷ []
unfolding split_held
split_plain String.[] p = refl
split_plain (String.◌∷◌ c s) p = ground (arith, split_plain s)

split_joined :
    (a b : String)
    → is_plain a ≡ true
    → is_plain b ≡ true
    → split_held false (a ++ ("__" ++ b)) ≡ a ∷ b ∷ []
unfolding split_held
split_joined String.[] b p q =
    rw (append.nil, append.cons, append.cons, append.nil) (ground (arith, split_plain b))
split_joined (String.◌∷◌ c s) b p q = rw append.cons (ground (arith, split_joined s b))

peer_of_ids-other :
    (my_id p : String) (ids : List String) → peer_of_ids my_id ids ≡ some p → p ≢ my_id
peer_of_ids-other my_id p (a ∷ b ∷ []) e =
    λ k. ground (arith, eq_iff a b, eq_iff a my_id, eq_iff b my_id)
peer_of_ids-other my_id p [] e = ground arith
peer_of_ids-other my_id p (a ∷ []) e = ground arith
peer_of_ids-other my_id p (a ∷ b ∷ c ∷ ids) e = ground arith

-- The peer of a channel is never the user.
pub direct_peer-other : (my_id p : String) (c : Channel) → direct_peer my_id c ≡ some p → p ≢ my_id
unfolding direct_peer
direct_peer-other my_id p c e =
    ground (arith, eq_iff c.teammate_id my_id, peer_of_ids-other my_id p (split_held false c.name))

cons_nil : (c : Char) (s : String) → String.◌∷◌ c s ≢ ""
cons_nil c s e = cc

is_set-cons : (c : Char) (s : String) → is_set (String.◌∷◌ c s) ≡ true
is_set-cons c s = elim (Bool-cases (String.◌∷◌ c s == "")) [
  | inl t ↦
      let e : String.◌∷◌ c s ≡ "" = (eq_iff (String.◌∷◌ c s) "").0 t in absurd (cons_nil c s e)
  | inr f ↦ rw f refl
]

is_set-joined : (a b : String) → is_set (a ++ ("__" ++ b)) ≡ true
is_set-joined String.[] b = rw (append.nil, append.cons) (is_set-cons _ _)
is_set-joined (String.◌∷◌ c s) b = rw append.cons (is_set-cons _ _)

named_peer :
    (my_id a b : String) (c : Channel)
    → is_plain a ≡ true
    → is_plain b ≡ true
    → is_set my_id ≡ true
    → is_set c.teammate_id ≡ false
    → c.is_direct ≡ true
    → c.name ≡ a ++ ("__" ++ b)
    → direct_peer my_id c ≡ peer_of_ids my_id (a ∷ b ∷ [])
unfolding direct_peer
named_peer my_id a b c pa pb sm t i n =
    rw n (rw (split_joined a b pa pb, is_set-joined a b, sm, t, i) refl)

-- A direct channel that is named by the user's id and another's, joined by two underscores in either
-- order, is the channel with that other user, if no id has an underscore and the host gives no
-- teammate.
pub direct_peer-joined :
    (my_id p : String) (c d : Channel)
    → is_plain my_id ≡ true
    → is_plain p ≡ true
    → is_set my_id ≡ true
    → p ≢ my_id
    → is_set c.teammate_id ≡ false
    → c.is_direct ≡ true
    → c.name ≡ my_id ++ ("__" ++ p)
    → is_set d.teammate_id ≡ false
    → d.is_direct ≡ true
    → d.name ≡ p ++ ("__" ++ my_id)
    → (direct_peer my_id c ≡ some p) × (direct_peer my_id d ≡ some p)
direct_peer-joined my_id p c d pa pb sa ne tc ic nc td id nd = (
  named_peer my_id my_id p c pa pb sa tc ic nc ∙ ground (arith, eq_iff my_id p, eq_iff my_id my_id),
  named_peer my_id p my_id d pb pa sa td id nd ∙ ground (arith, eq_iff p my_id, eq_iff my_id my_id),
)

abbrev pub peers : List Row → List String
peers rows = map (λ (r : Row). r.peer_id) rows

-- Whether a row may stand in the picker.
abbrev pub is_fit : (my_id : String) (seen : List String) → Row → Bool
is_fit my_id seen r =
    not (r.peer_id == my_id)
    && not (contains r.peer_id seen)
    && not r.user.deleted
    && not r.user.is_bot

eligible-is_fit :
    (my_id : String) (users : String → Option User) (seen : List String) (c : Channel) (r : Row)
    → eligible my_id users seen c ≡ some r
    → is_fit my_id seen r ≡ true
unfolding eligible
eligible-is_fit my_id users seen c r e = elim (Option-cases (direct_peer my_id c)) [
  | inl n ↦ ground arith
  | inr (p, d) ↦ ground (arith, eq_iff p my_id, direct_peer-other my_id p c)
]

fit_seen :
    (my_id p : String) (seen : List String) (rows : List Row)
    → all (is_fit my_id (p ∷ seen)) rows ≡ true
    → (all (is_fit my_id seen) rows ≡ true) × (contains p (peers rows) ≡ false)
fit_seen my_id p seen [] h = (refl, refl)
fit_seen my_id p seen (r ∷ rows) h =
    ground (arith, eq_iff p r.peer_id, eq_iff r.peer_id p, fit_seen my_id p seen rows)

abbrev pub distinct : List String → Bool
distinct [] = true
distinct (x ∷ xs) = not (contains x xs) && distinct xs

-- The picker has at most one row for each peer, none for the user, for a peer already seen, for a
-- bot or for a deleted user.
pub picker_rows-is_fit :
    (my_id : String) (users : String → Option User) (seen : List String) (channels : List Channel)
    → (all (is_fit my_id seen) (picker_rows my_id users seen channels) ≡ true)
      × (distinct (peers (picker_rows my_id users seen channels)) ≡ true)
unfolding picker_rows
picker_rows-is_fit my_id users seen [] = (refl, refl)
picker_rows-is_fit my_id users seen (c ∷ cs) = elim (Option-cases (eligible my_id users seen c)) [
  | inl n ↦ rw (n, picker_rows) (picker_rows-is_fit my_id users seen cs)
  | inr (r, e) ↦
      let (fits, apart) = picker_rows-is_fit my_id users (r.peer_id ∷ seen) cs in
      let (kept, once) = fit_seen my_id r.peer_id seen _ fits in
      let fit = eligible-is_fit my_id users seen c r e in
      rw (e, picker_rows) (rw fit kept, rw once apart)
]
