-- ===== src/Storage/S3Laws.antt =====
-- storage/s3_store.go: what was saved is found.
use blogengine.Prelude.{
  ◌≡◌, sym, ap, ◌∙◌, inl, inr, true, false, none, some, arith, Bool-cases, if◌then◌else◌,
}
use blogengine.Prelude.Text.{Text, text_eq, text_eq_sound, is_empty, trim_space}
use blogengine.Storage.S3.{Bucket, IsBucket, open_key, exists_key, save, delete}

-- the key is one that the store can find again
abbrev pub IsKey : Text → Type 0
IsKey key = (is_empty key ≡ false) × (trim_space key ≡ key)

module _ {B : Type 0} (m : Bucket B) (laws : IsBucket m) where
  -- An object that was saved exists and is opened as it was saved, one that was deleted does not exist,
  -- and saving changes nothing for a reader of another key. (The call succeeds, and the key is neither
  -- empty nor has spaces around it: Save takes a key as it is, where Open and Exists trim it.)
  pub open-save :
      (key other body : Text) (b : B)
      → IsKey key
      → text_eq key (trim_space other) ≡ false
      → (save m key body b).0 ≡ none
      → (open_key m key (save m key body b).1 ≡ some body)
        × (exists_key m key (save m key body b).1 ≡ true)
        × (open_key m other (save m key body b).1 ≡ open_key m other b)
        × (exists_key m other (save m key body b).1 ≡ exists_key m other b)
        × ((delete m key (save m key body b).1).0 ≡ none
            → exists_key m key (delete m key (save m key body b).1).1 ≡ false)
  unfolding open_key exists_key save delete
  open-save key other body b (named, trimmed) apart done =
      let stored = (m.put_object key body b).1 in
      (
        rw (named, trimmed, open_key) (laws.get-put key body b done),
        rw (named, trimmed, exists_key) (laws.head-put key body b done),
        ap (λ x. if is_empty other then none else x)
            (laws.get-put_other key (trim_space other) body b apart),
        ap (λ x. if is_empty other then false else x)
            (laws.head-put_other key (trim_space other) body b apart),
        λ gone. rw (named, trimmed, exists_key) (laws.head-delete key stored gone),
      )

  pub exists-save :
      (key body : Text) (b : B)
      → IsKey key
      → (save m key body b).0 ≡ none
      → exists_key m key (save m key body b).1 ≡ true
  unfolding exists_key save
  exists-save key body b (named, trimmed) done =
      rw (named, trimmed, exists_key) (laws.head-put key body b done)

  pub exists-save_other :
      (key k body : Text) (b : B)
      → (save m k body b).0 ≡ none
      → exists_key m key b ≡ true
      → exists_key m key (save m k body b).1 ≡ true
  unfolding exists_key save
  exists-save_other key k body b done e = elim (Bool-cases (is_empty key)) [
    | inl n ↦ absurd (ground (arith, n, e))
    | inr n ↦ elim (Bool-cases (text_eq k (trim_space key))) [
      | inl same ↦
          rw (n, exists_key)
            (ap (λ x. m.head_object x (m.put_object k body b).1)
                (sym (text_eq_sound k (trim_space key) same))
              ∙ laws.head-put k body b done)
      | inr other ↦
          let before : m.head_object (trim_space key) b ≡ true = ground (arith, n, e) in
          rw (n, exists_key) (laws.head-put_other k (trim_space key) body b other ∙ before)
    ]
  ]
