-- ===== src/Media.antt =====
-- Media objects of the browser, as far as the code reads them: a stream is a list of tracks, each
-- with its kind. Whether stopping a track throws is a property of the object that the code is given.
use mattermost_plugin_voices.Base.{ℕ, Bool, List, [], ◌∷◌, Option, none, some, if◌then◌else◌}

pub record Track : Type 0 where
  pub id : ℕ
  pub is_video : Bool
  pub stop_throws : Bool

pub record MediaStream : Type 0 where
  pub id : ℕ
  pub tracks : List Track

-- `getVideoTracks()[0]`
abbrev pub first_video : List Track → Option Track
first_video [] = none
first_video (t ∷ ts) = if t.is_video then some t else first_video ts

-- `getAudioTracks()[0]`
abbrev pub first_audio : List Track → Option Track
first_audio [] = none
first_audio (t ∷ ts) = if t.is_video then first_audio ts else some t
