-- ===== src/Cluster/Config/Volumes.antt =====
-- cluster/config.go: volumeDocuments, ephemeralCap and userVolume.
-- The sizes and the expressions of Talos machinery and Go's %q are fields of a `Blocks`.
use Prim.Native.String.{◌++◌ as str_append}
use talos_in_qemu.Prelude.{
  named_error, ℕ, String, Bool, true, List, [], ◌∷◌, not, ◌&&◌, str_eq, ltb, Result, ok, ◌>>=◌,
  ◌>>◌, refuse_if, if◌then◌else◌,
}
use talos_in_qemu.Cluster.Up.Effects.{ConfigInput}
use talos_in_qemu.Cluster.Config.Documents.{Document}
use talos_in_qemu.Cluster.Config.Documents.Document.{volume_config, user_volume_config}

-- block.Size, cel.ParseBooleanExpression for disks and for links, and fmt's %q.
pub record Blocks (Size Match : Type 0) : Type 0 where
  pub parse_size : String → Result String Size
  pub is_zero : Size → Bool
  pub is_relative : Size → Bool
  pub value : Size → ℕ
  pub disk_match : String → Result String Match
  pub link_match : String → Result String Match
  pub quoted : String → String

pub data VolumeRefusal : Type 0 where
  not_a_size not_an_expression : String → VolumeRefusal
  no_size : VolumeRefusal
  too_small : ℕ → VolumeRefusal

-- userVolumeName
abbrev pub user_volume_name : String
user_volume_name = "local-path-provisioner"

-- ephemeralFloor
abbrev pub ephemeral_floor : ℕ
ephemeral_floor = 1073741824

module _ {Size Match Other : Type 0} (blocks : Blocks Size Match) where
  -- ephemeralCap
  unfoldable pub ephemeral_cap : String → Result VolumeRefusal (Document Size Match Other)
  ephemeral_cap max_size = named_error not_a_size (blocks.parse_size max_size) >>= λ size.
      refuse_if (blocks.is_zero size) no_size
      >> (refuse_if (not (blocks.is_relative size) && ltb (blocks.value size) ephemeral_floor)
            (too_small (blocks.value size))
          >> (named_error not_an_expression (blocks.disk_match "system_disk") >>= λ m.
              ok (volume_config "EPHEMERAL" m size)))

  -- userVolume
  unfoldable pub user_volume : String → Result VolumeRefusal (Document Size Match Other)
  user_volume expr = named_error not_an_expression (blocks.disk_match expr) >>= λ m.
      ok (user_volume_config user_volume_name "partition" m "1GiB" true "xfs")

  -- volumeDocuments
  unfoldable pub volume_documents :
      ConfigInput → Result VolumeRefusal (List (Document Size Match Other))
  unfolding ephemeral_cap user_volume
  volume_documents input =
      if not (str_eq input.data_disk_serial "")
      then (user_volume (str_append "disk.serial == " (blocks.quoted input.data_disk_serial))
          >>= λ volume. ok (volume ∷ []))
      else if not (str_eq input.ephemeral_max_size "")
      then (ephemeral_cap input.ephemeral_max_size >>= λ ephemeral.
          user_volume "system_disk" >>= λ volume. ok (ephemeral ∷ volume ∷ []))
      else ok []
