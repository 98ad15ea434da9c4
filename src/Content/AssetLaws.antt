-- ===== src/Content/AssetLaws.antt =====
-- content/assets.go: a name leads back to its path.
use blogengine.Prelude.{
  ◌≡◌, refl, sym, ap, ◌∙◌, inl, inr, false, some, arith, Bool-cases, Option-cases,
}
use blogengine.Prelude.Text.{Text, text_eq, text_eq_sound, is_empty}
use blogengine.Middleware.Assoc.{lookup, assign, lookup-assign, lookup-assign_other}
use blogengine.Content.Assets.{
  AssetManager, new_asset_manager, obfuscate_clean, obfuscate, get_relative_path,
}

module _ (clean : Text → Text) (new_v5 : Text → Text) (nil_uuid : Text) where
  -- The two maps agree: the UUID of a path is its own, and leads to the path.
  abbrev pub IsConsistent : AssetManager → Type 0
  IsConsistent am =
      (path uuid : Text)
      → lookup path am.path_to_uuid ≡ some uuid
      → (uuid ≡ new_v5 path) × (lookup uuid am.uuid_to_path ≡ some path)

  pub new_asset_manager-IsConsistent : IsConsistent new_asset_manager
  unfolding lookup
  new_asset_manager-IsConsistent path uuid h = absurd (ground arith)

  -- No other path that has a name has the UUID of this one.
  abbrev pub IsApart : Text → AssetManager → Type 0
  IsApart path am =
      (p u : Text)
      → lookup p am.path_to_uuid ≡ some u
      → text_eq path p ≡ false
      → text_eq (new_v5 path) (new_v5 p) ≡ false

  added-IsConsistent :
      (path : Text) (am : AssetManager)
      → IsApart path am
      → IsConsistent am
      → IsConsistent (record {
        uuid_to_path = assign (new_v5 path) path am.uuid_to_path;
        path_to_uuid = assign path (new_v5 path) am.path_to_uuid;
      })
  added-IsConsistent path am apart w p u h = elim (Bool-cases (text_eq path p)) [
    | inl e ↦
        let same : path ≡ p = text_eq_sound path p e in
        let value : some (new_v5 path) ≡ some u =
          sym (lookup-assign path (new_v5 path) am.path_to_uuid)
          ∙ ap (λ x. lookup x (assign path (new_v5 path) am.path_to_uuid)) same
          ∙ h in
        let mine : new_v5 path ≡ u = ground (arith, value) in
        (
          sym mine ∙ ap new_v5 same,
          ap (λ x. lookup x (assign (new_v5 path) path am.uuid_to_path)) (sym mine)
              ∙ lookup-assign (new_v5 path) path am.uuid_to_path
              ∙ ap some same,
        )
    | inr e ↦
        let old = sym (lookup-assign_other path p (new_v5 path) am.path_to_uuid e) ∙ h in
        let (own, leads) = w p u old in
        (
          own,
          lookup-assign_other (new_v5 path) u path am.uuid_to_path
                (ap (λ x. text_eq (new_v5 path) x) own ∙ apart p u old e)
              ∙ leads,
        )
  ]

  pub obfuscate_clean_lem :
      (path : Text) (am : AssetManager)
      → IsApart path am
      → IsConsistent am
      → IsConsistent (obfuscate_clean clean new_v5 nil_uuid path am).1
        × (lookup
              (obfuscate_clean clean new_v5 nil_uuid path am).0
              (obfuscate_clean clean new_v5 nil_uuid path am).1.uuid_to_path
            ≡ some path)
        × ((obfuscate_clean clean new_v5 nil_uuid path am).0 ≡ new_v5 path)
  unfolding obfuscate_clean
  obfuscate_clean_lem path am apart w = elim (Option-cases (lookup path am.path_to_uuid)) [
    | inl n ↦
        rw (n, obfuscate_clean)
          (
            added-IsConsistent path am apart w,
            lookup-assign (new_v5 path) path am.uuid_to_path,
            refl,
          )
    | inr (u, n) ↦ rw (n, obfuscate_clean) (w, (w path u n).1, (w path u n).0)
  ]

  -- Obfuscate keeps the two maps in agreement. The name that it gives to a path depends on the
  -- cleaned path alone, not on what was asked before, and GetRelativePath leads it back to the cleaned
  -- path. (The path is not empty, its UUID is not the nil one,
  -- and no other path that has a name has that UUID.)
  pub get_relative_path-obfuscate :
      (path : Text) (am : AssetManager)
      → IsApart (clean path) am
      → text_eq (new_v5 (clean path)) nil_uuid ≡ false
      → is_empty path ≡ false
      → IsConsistent am
      → ((obfuscate clean new_v5 nil_uuid path am).0 ≡ some (new_v5 (clean path)))
        × (get_relative_path clean new_v5 nil_uuid
              (new_v5 (clean path))
              (obfuscate clean new_v5 nil_uuid path am).1
            ≡ some (clean path))
        × IsConsistent (obfuscate clean new_v5 nil_uuid path am).1
  unfolding obfuscate get_relative_path
  get_relative_path-obfuscate path am apart real named w =
      let (kept, leads, own) = obfuscate_clean_lem (clean path) am apart w in
      rw (named, real, obfuscate, get_relative_path)
        (
          ap some own,
          ap (λ x. lookup x (obfuscate_clean clean new_v5 nil_uuid (clean path) am).1.uuid_to_path)
                (sym own)
              ∙ leads,
          kept,
        )
