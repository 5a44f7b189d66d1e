-- ===== src/CallPicker/Listed.antt =====
-- The list of the picker against one without the hint:
-- webapp/src/components/video_call_picker/video_call_picker.jsx.
use mathlib.Core.List.{Option-to_list}
use mattermost_plugin_voices.Base.{
  String, Bool, true, false, not, ◌&&◌, ◌||◌, Option, none, some, List, [], ◌∷◌, ◌++◌, ◌≡◌, refl,
  sym, ◌∙◌, keep, is_set, all, contains, eq_iff, arith, Bool-cases, inl, inr, if◌then◌else◌, ◌==◌,
}
use mattermost_plugin_voices.Base.Text.{trim}
use mattermost_plugin_voices.Users.{User}
use mattermost_plugin_voices.Call.Slice.{Slice}
use mattermost_plugin_voices.Direct.{Row, Channel, picker_rows}
use mattermost_plugin_voices.Direct.Laws.{peers, distinct, picker_rows-is_fit}
use mattermost_plugin_voices.CallPicker.{
  Props, is_hinted, is_after, insert_row, sort_rows, has_query, filtered, name_of, rendered,
  picker_props, text_or_empty,
}

-- The comparison of names alone.
abbrev pub by_name : (after : String → String → Bool) (a b : Row) → Bool
by_name after a b = after (name_of a) (name_of b)

abbrev pub others : (hint : String) → List Row → List Row
others hint rows = keep (λ r. not (is_hinted hint r)) rows

all-keep : (p : Row → Bool) (rows : List Row) → all p (keep p rows) ≡ true
all-keep p [] = refl
all-keep p (r ∷ rows) = ground (arith, all-keep p rows)

all-insert :
    (p : Row → Bool) (is_later : Row → Row → Bool) (r : Row) (rows : List Row)
    → all p (insert_row is_later r rows) ≡ p r && all p rows
all-insert p is_later r [] = refl
all-insert p is_later r (x ∷ rows) = ground (arith, all-insert p is_later r rows)

all-sort_eq :
    (p : Row → Bool) (is_later : Row → Row → Bool) (rows : List Row)
    → all p (sort_rows is_later rows) ≡ all p rows
all-sort_eq p is_later [] = refl
all-sort_eq p is_later (r ∷ rows) =
    ground (arith, all-insert p is_later r (sort_rows is_later rows), all-sort_eq p is_later rows)

pub all-sort :
    (p : Row → Bool) (is_later : Row → Row → Bool) (rows : List Row)
    → all p rows ≡ true
    → all p (sort_rows is_later rows) ≡ true
all-sort p is_later rows h = all-sort_eq p is_later rows ∙ h

module _ (after : String → String → Bool) (hint : String) where
  insert-hinted :
      (r : Row) (rows : List Row)
      → is_hinted hint r ≡ true
      → insert_row (is_after after hint) r rows ≡ r ∷ rows
  unfolding is_after
  insert-hinted r [] h = refl
  insert-hinted r (x ∷ rows) h = ground arith

  insert-other :
      (r : Row) (pinned rest : List Row)
      → is_hinted hint r ≡ false
      → all (is_hinted hint) pinned ≡ true
      → all (λ x. not (is_hinted hint x)) rest ≡ true
      → insert_row (is_after after hint) r (pinned ++ rest)
        ≡ pinned ++ insert_row (by_name after) r rest
  unfolding is_after
  insert-other r [] [] h k o = refl
  insert-other r [] (x ∷ rest) h k o = ground (arith, insert-other r [] rest)
  insert-other r (p ∷ pinned) rest h k o = ground (arith, insert-other r pinned rest)

  -- The hinted rows first, and then the others as without a hint.
  sort-hinted :
      (rows : List Row)
      → sort_rows (is_after after hint) rows
        ≡ keep (is_hinted hint) rows ++ sort_rows (by_name after) (others hint rows)
  sort-hinted [] = refl
  sort-hinted (r ∷ rows) = elim (Bool-cases (is_hinted hint r)) [
    | inl h ↦ rw (sort-hinted rows, h) (insert-hinted r _ h)
    | inr h ↦
        rw (sort-hinted rows, h)
          (insert-other r (keep (is_hinted hint) rows)
            (sort_rows (by_name after) (others hint rows)) h (all-keep (is_hinted hint) rows)
            (all-sort (λ x. not (is_hinted hint x)) (by_name after) (others hint rows)
              (all-keep (λ x. not (is_hinted hint x)) rows)))
  ]

-- the row of a peer
unfoldable pub find_row : (peer_id : String) → List Row → Option Row
find_row p [] = none
find_row p (r ∷ rows) = if r.peer_id == p then some r else find_row p rows

keep-hinted_unset :
    (hint : String) (rows : List Row) → is_set hint ≡ false → keep (is_hinted hint) rows ≡ []
keep-hinted_unset hint [] u = refl
keep-hinted_unset hint (r ∷ rows) u = ground (arith, keep-hinted_unset hint rows)

keep-hinted_absent :
    (hint : String) (rows : List Row)
    → contains hint (peers rows) ≡ false
    → keep (is_hinted hint) rows ≡ []
keep-hinted_absent hint [] a = refl
keep-hinted_absent hint (r ∷ rows) a = ground (arith, keep-hinted_absent hint rows)

-- Among rows of distinct peers at most one is hinted.
keep-hinted :
    (hint : String) (rows : List Row)
    → is_set hint ≡ true
    → distinct (peers rows) ≡ true
    → keep (is_hinted hint) rows ≡ Option-to_list (find_row hint rows)
unfolding find_row Option-to_list
keep-hinted hint [] s d = refl
keep-hinted hint (r ∷ rows) s d =
    ground (arith, eq_iff r.peer_id hint, keep-hinted_absent hint rows, keep-hinted hint rows)

-- the hinted row, if a hint is given and a row has it
unfoldable pub pinned : (hint : String) → List Row → Option Row
unfolding find_row
pinned hint rows = if is_set hint then find_row hint rows else none

keep-pinned :
    (hint : String) (rows : List Row)
    → distinct (peers rows) ≡ true
    → keep (is_hinted hint) rows ≡ Option-to_list (pinned hint rows)
unfolding pinned Option-to_list
keep-pinned hint rows d = ground (arith, keep-hinted hint rows, keep-hinted_unset hint rows)

-- Whether a row is one that the filter leaves.
unfoldable pub is_left : (lower : String → String) (text : String) → Row → Bool
is_left lower text r = not (is_set (lower (trim text))) || has_query lower (lower (trim text)) r

keep-is_left_all :
    (lower : String → String) (text : String) (rows : List Row)
    → is_set (lower (trim text)) ≡ false
    → keep (is_left lower text) rows ≡ rows
unfolding is_left
keep-is_left_all lower text [] u = refl
keep-is_left_all lower text (r ∷ rows) u = ground (arith, keep-is_left_all lower text rows)

keep-is_left_some :
    (lower : String → String) (text : String) (rows : List Row)
    → is_set (lower (trim text)) ≡ true
    → keep (is_left lower text) rows ≡ keep (has_query lower (lower (trim text))) rows
unfolding is_left
keep-is_left_some lower text [] u = refl
keep-is_left_some lower text (r ∷ rows) u = ground (arith, keep-is_left_some lower text rows)

pub filtered-keep :
    (lower : String → String) (after : String → String → Bool) (text : String) (props : Props)
    → filtered lower after text props
      ≡ keep (is_left lower text) (sort_rows (is_after after props.hint_peer_id) props.peer_rows)
unfolding filtered
filtered-keep lower after text props = elim (Bool-cases (is_set (lower (trim text)))) [
  | inl u ↦ rw u (sym (keep-is_left_some lower text _ u))
  | inr u ↦ rw u (sym (keep-is_left_all lower text _ u))
]

-- With the direct channels of the store, and whatever order localeCompare gives, the open picker lists
-- the rows that the text of its filter leaves of: the row of the hinted peer, if there is a hint and a
-- row for it, and behind it all other rows in the order of their names. The comparison that looks at
-- the hint itself gives this list. A picker that is not open lists nothing.
pub rendered-pinned :
    (lower : String → String) (after : String → String → Bool) (text my_id : String)
    (users : String → Option User) (channels : List Channel) (s : Slice) (hint : Option String)
    → let rows = picker_rows my_id users [] channels in
      let h = text_or_empty hint in
      rendered lower after text (picker_props s (some rows) (some hint)) ≡ (
        if s.picker_open
        then keep
            (is_left lower text)
            (Option-to_list (pinned h rows) ++ sort_rows (by_name after) (others h rows))
        else [])
unfolding rendered picker_props
rendered-pinned lower after text my_id users channels s hint =
    let rows = picker_rows my_id users [] channels in
    let h = text_or_empty hint in
    let pins = keep-pinned h rows (picker_rows-is_fit my_id users [] channels).1 in
    let e = filtered-keep lower after text (picker_props s (some rows) (some hint)) in
    ground (arith, e, sort-hinted after h rows, pins)
