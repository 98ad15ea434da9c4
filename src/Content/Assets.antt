-- ===== src/Content/Assets.antt =====
-- content/assets.go: the names that stand for the paths of assets. filepath.Clean and the version 5
-- UUIDs of the namespace are parameters; a UUID is its text, and `nil_uuid` the one that IsNil tells.
-- The two maps are changed under one lock, so that one call is one step.
use blogengine.Prelude.{[], List, Option, none, some, if◌then◌else◌}
use blogengine.Prelude.Text.{Text, text_eq, is_empty}
use blogengine.Middleware.Assoc.{lookup, assign}

pub record AssetManager : Type 0 where
  pub uuid_to_path : List (Text × Text)
  pub path_to_uuid : List (Text × Text)

abbrev pub new_asset_manager : AssetManager
new_asset_manager = record { uuid_to_path = []; path_to_uuid = [] }

module _ (clean : Text → Text) (new_v5 : Text → Text) (nil_uuid : Text) where
  -- the path is known, or gets its UUID
  unfoldable pub obfuscate_clean : Text → AssetManager → Text × AssetManager
  obfuscate_clean path am = elim (lookup path am.path_to_uuid) [
    | some uuid ↦ (uuid, am)
    | none ↦ (
      new_v5 path,
      record {
        uuid_to_path = assign (new_v5 path) path am.uuid_to_path;
        path_to_uuid = assign path (new_v5 path) am.path_to_uuid;
      },
    )
  ]

  -- Obfuscate; none is its error
  unfoldable pub obfuscate : Text → AssetManager → Option Text × AssetManager
  unfolding obfuscate_clean
  obfuscate path am =
      let r = obfuscate_clean (clean path) am in
      if is_empty path then (none, am) else (some r.0, r.1)

  -- GetRelativePath; none is one of its two errors
  unfoldable pub get_relative_path : Text → AssetManager → Option Text
  get_relative_path uuid am = if text_eq uuid nil_uuid then none else lookup uuid am.uuid_to_path
