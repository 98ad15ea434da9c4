-- ===== src/Tests/Content.antt =====
-- The names of assets and the image queue.
use mathlib.Core.Path.{subst}
use blogengine.Prelude.{
  ◌≡◌, refl, sym, ap, ◌∙◌, inl, inr, true, false, [], ◌∷◌, some, arith, Bool-cases,
}
use blogengine.Prelude.Text.{Text, codes, text_eq, text_eq_sound}
use blogengine.Content.Assets.{AssetManager, obfuscate, get_relative_path}
use blogengine.Content.AssetLaws.{IsApart, IsConsistent, get_relative_path-obfuscate}
use blogengine.Middleware.Assoc.{lookup}
use blogengine.Tests.Shelf.{sixteen, nil_uuid, as_is}
use blogengine.Strconv.{itoa, itoa_from}
use blogengine.Content.Images.{ImageJob}
use blogengine.Content.Processor.{
  new_processor, enqueue, work, duplicate, is_in_flight, enqueue_key,
}
use blogengine.Content.ProcessorLaws.{rest, works, enqueue_never_again}

-- one path has a name
abbrev held : AssetManager
held = record {
  uuid_to_path = (sixteen (codes "b.png"), codes "b.png") ∷ [];
  path_to_uuid = (codes "b.png", sixteen (codes "b.png")) ∷ [];
}

held_inv : (p u : Text) → lookup p held.path_to_uuid ≡ some u → codes "b.png" ≡ p
unfolding lookup
held_inv p u h = elim (Bool-cases (text_eq (codes "b.png") p)) [
  | inl t ↦ text_eq_sound (codes "b.png") p t
  | inr f ↦ absurd (ground (arith, h, f))
]

held-IsConsistent : IsConsistent as_is sixteen nil_uuid held
unfolding lookup
held-IsConsistent p u h =
    let same : sixteen (codes "b.png") ≡ u =
      ground (arith, ap (λ x. lookup x held.path_to_uuid) (held_inv p u h), h) in
    (
      sym same ∙ ap sixteen (held_inv p u h),
      ap (λ x. lookup x held.uuid_to_path) (sym same) ∙ ap some (held_inv p u h),
    )

held-IsApart : IsApart as_is sixteen nil_uuid (codes "a.png") held
held-IsApart p u h e =
    subst (λ x. text_eq (sixteen (codes "a.png")) (sixteen x) ≡ false) (held_inv p u h) refl

get_relative_path-obfuscate_example :
    let am = (obfuscate as_is sixteen nil_uuid (codes "a.png") held).1 in
    ((obfuscate as_is sixteen nil_uuid (codes "a.png") held).0 ≡ some (codes "a.png-----------"))
    × (get_relative_path as_is sixteen nil_uuid (codes "a.png-----------") am
        ≡ some (codes "a.png"))
    × IsConsistent as_is sixteen nil_uuid am
get_relative_path-obfuscate_example =
    get_relative_path-obfuscate as_is sixteen nil_uuid (codes "a.png") held held-IsApart refl refl
      held-IsConsistent

abbrev small : ImageJob
small = record { source_path = codes "a.png"; id = codes "u1"; width = 800 }

taken_on : is_in_flight (enqueue_key small) (enqueue false small new_processor).1.in_flight ≡ true
unfolding enqueue itoa itoa_from
taken_on = refl

enqueue_never_again_example :
    enqueue false small (work (enqueue false small new_processor).1)
    ≡ (duplicate, work (enqueue false small new_processor).1)
enqueue_never_again_example =
    enqueue_never_again small false false new_processor
      {q = work (enqueue false small new_processor).1} taken_on (works rest)
