-- ===== src/Observation/Selection.antt =====
-- The volumes that the controller observes (crates/agent/src/observation.rs).
use local_search.Prelude.{
  ℕ, ◌+◌, Bool, true, ◌&&◌, ◌||◌, List, [], ◌∷◌, map, leb, ◌==◌, if◌then◌else◌, is_some_and,
}
use local_search.Core.Ids.{VolumeId}
use local_search.Core.Models.{Text}
use local_search.Platform.{VolumeDescriptor}
use local_search.Graph.Rows.{select, exists}
use local_search.Graph.Tables.{text_eq}

pub data ObservationSelection : Type 0 where
  all_local_ntfs : ObservationSelection
  volumes : List VolumeId → ObservationSelection
  volumes_and_mount_points : List VolumeId → List Text → ObservationSelection

-- u8::to_ascii_lowercase
abbrev pub to_ascii_lowercase : ℕ → ℕ
to_ascii_lowercase byte = if leb 65 byte && leb byte 90 then byte + 32 else byte

-- str::eq_ignore_ascii_case
abbrev pub eq_ignore_ascii_case : Text → Text → Bool
eq_ignore_ascii_case a b = text_eq (map to_ascii_lowercase a) (map to_ascii_lowercase b)

-- '\\' and '/'
abbrev pub is_separator : ℕ → Bool
is_separator byte = byte == 92 || byte == 47

-- A separator stays only before something that stays.
abbrev pub unless_last : ℕ → Text → Text
unless_last byte [] = if is_separator byte then [] else byte ∷ []
unless_last byte (c ∷ cs) = byte ∷ c ∷ cs

-- trim_end_matches(['\\', '/'])
unfoldable pub trim_end : Text → Text
trim_end [] = []
trim_end (c ∷ cs) = unless_last c (trim_end cs)

unfoldable pub mount_point_matches : Text → Text → Bool
mount_point_matches discovered selected =
    eq_ignore_ascii_case (trim_end discovered) (trim_end selected)

-- "ntfs"
abbrev pub ntfs : Text
ntfs = 110 ∷ 116 ∷ 102 ∷ 115 ∷ []

-- the `match` on the selection
unfoldable pub is_selected : ObservationSelection → VolumeDescriptor → Bool
is_selected ObservationSelection.all_local_ntfs volume = true
is_selected (ObservationSelection.volumes selected) volume =
    exists (λ id. id == volume.volume_id) selected
is_selected (ObservationSelection.volumes_and_mount_points volume_ids mount_points) volume =
    exists (λ id. id == volume.volume_id) volume_ids
    || exists (λ discovered. exists (mount_point_matches discovered) mount_points)
        volume.mount_points

unfoldable pub observes : ObservationSelection → VolumeDescriptor → Bool
observes selection volume =
    volume.local
    && is_some_and volume.filesystem (λ filesystem. eq_ignore_ascii_case filesystem ntfs)
    && is_selected selection volume

unfoldable pub selected_volumes :
    List VolumeDescriptor → ObservationSelection → List VolumeDescriptor
selected_volumes discovered selection = select (observes selection) discovered
