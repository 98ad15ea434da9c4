-- ===== src/Content/MarkdownLaws.antt =====
-- content/markdown.go with content/assets.go: the images of a document after Transform.
use mathlib.Core.Path.{subst}
use blogengine.Prelude.{
  ◌≡◌, refl, sym, ap, ◌∙◌, inl, inr, ◌⊎◌, Bool, true, false, not, ◌&&◌, ◌||◌, List, [], ◌∷◌, some,
  All, arith, Bool-cases, Option-cases,
}
use blogengine.Prelude.Text.{Text, text_eq, text_eq_sound, text_eq_refl, is_empty}
use blogengine.Middleware.Assoc.{lookup, lookup-assign, lookup-assign_other}
use blogengine.Content.Assets.{AssetManager, obfuscate_clean, obfuscate, get_relative_path}
use blogengine.Content.AssetLaws.{IsApart, IsConsistent, obfuscate_clean_lem}
use blogengine.Content.Markdown.{
  Node, image, heading, other, is_external_link, asset_url, transform_image, transform,
}

-- an image that names no path would end the walk
abbrev pub has_destination : Node → Bool
has_destination (image destination title) = not (is_empty destination)
has_destination (heading level) = true
has_destination other = true

module _ (clean : Text → Text) (new_v5 : Text → Text) (nil_uuid : Text) where
  -- a local image of the document has this path, once cleaned
  abbrev pub names : Text → List Node → Bool
  names q [] = false
  names q (image destination title ∷ nodes) =
      (not (is_external_link destination) && text_eq (clean destination) q) || names q nodes
  names q (heading level ∷ nodes) = names q nodes
  names q (other ∷ nodes) = names q nodes

  -- a path at hand: it has a name already, or the document names it
  abbrev pub AtHand : List Node → AssetManager → Text → Type 0
  AtHand nodes am q = ((u : Text) × (lookup q am.path_to_uuid ≡ some u)) ⊎ (names q nodes ≡ true)

  -- of these paths no two have one UUID
  abbrev pub IsCollisionFree : (Text → Type 0) → Type 0
  IsCollisionFree P = (p q : Text) → P p → P q → new_v5 p ≡ new_v5 q → p ≡ q

  abbrev Known : Text → AssetManager → Type 0
  Known path am = lookup path am.path_to_uuid ≡ some (new_v5 path)

  obfuscate_clean-Known :
      (path q : Text) (am : AssetManager)
      → Known q am
      → Known q (obfuscate_clean clean new_v5 nil_uuid path am).1
  unfolding obfuscate_clean
  obfuscate_clean-Known path q am k = elim (Option-cases (lookup path am.path_to_uuid)) [
    | inr (u, n) ↦ rw (n, obfuscate_clean) k
    | inl n ↦ elim (Bool-cases (text_eq path q)) [
      | inr e ↦
          rw (n, obfuscate_clean) (lookup-assign_other path q (new_v5 path) am.path_to_uuid e ∙ k)
      | inl e ↦
          let same = ap (λ x. lookup x am.path_to_uuid) (text_eq_sound path q e) in
          absurd (ground (arith, sym n ∙ same ∙ k))
    ]
  ]

  obfuscate_clean_knows :
      (path : Text) (am : AssetManager)
      → IsConsistent clean new_v5 nil_uuid am
      → Known path (obfuscate_clean clean new_v5 nil_uuid path am).1
  unfolding obfuscate_clean
  obfuscate_clean_knows path am w = elim (Option-cases (lookup path am.path_to_uuid)) [
    | inl n ↦ rw (n, obfuscate_clean) (lookup-assign path (new_v5 path) am.path_to_uuid)
    | inr (u, n) ↦ rw (n, obfuscate_clean) (n ∙ ap some (w path u n).0)
  ]

  -- What Transform makes of a node, where `am` is the asset manager after the walk.
  abbrev pub Rewritten : AssetManager → Node → Node → Type 0
  Rewritten am (image destination title) n =
      ((is_external_link destination ≡ true) × (n ≡ image destination title))
      ⊎ ((n ≡ image (asset_url (new_v5 (clean destination))) title)
          × (get_relative_path clean new_v5 nil_uuid (new_v5 (clean destination)) am
              ≡ some (clean destination)))
  Rewritten am (heading level) n = n ≡ heading level
  Rewritten am other n = n ≡ other

  -- one node for each, in order
  abbrev pub Each : (Node → Node → Type 0) → List Node → List Node → Type 0
  Each R [] [] = Unit
  Each R [] (n ∷ ns) = ⊥
  Each R (m ∷ ms) [] = ⊥
  Each R (m ∷ ms) (n ∷ ns) = R m n × Each R ms ns

  -- the walk keeps what was known and the agreement of the maps, and rewrites each node
  record Walked (nodes : List Node) (am : AssetManager) (r : List Node × AssetManager)
      : Type 0 where
    known : (q : Text) → Known q am → Known q r.1
    agrees : IsConsistent clean new_v5 nil_uuid r.1
    each : Each (Rewritten r.1) nodes r.0

  transform-external :
      (d title : Text) (nodes : List Node) (am : AssetManager)
      → is_external_link d ≡ true
      → transform clean new_v5 nil_uuid (image d title ∷ nodes) am ≡ (
        image d title ∷ (transform clean new_v5 nil_uuid nodes am).0,
        (transform clean new_v5 nil_uuid nodes am).1,
      )
  unfolding transform
  transform-external d title nodes am h = rw h refl

  obfuscate-named :
      (d : Text) (am : AssetManager)
      → is_empty d ≡ false
      → let r = obfuscate_clean clean new_v5 nil_uuid (clean d) am in
        obfuscate clean new_v5 nil_uuid d am ≡ (some r.0, r.1)
  unfolding obfuscate
  obfuscate-named d am h = rw h refl

  transform-local :
      (d title : Text) (nodes : List Node) (am : AssetManager)
      → is_external_link d ≡ false
      → is_empty d ≡ false
      → let r = obfuscate_clean clean new_v5 nil_uuid (clean d) am in
        transform clean new_v5 nil_uuid (image d title ∷ nodes) am ≡ (
          image (asset_url r.0) title ∷ (transform clean new_v5 nil_uuid nodes r.1).0,
          (transform clean new_v5 nil_uuid nodes r.1).1,
        )
  unfolding transform transform_image
  transform-local d title nodes am h k =
      rw h refl
      ∙ ap (transform_image d title nodes (transform clean new_v5 nil_uuid nodes))
          (obfuscate-named d am k)

  module _ (P : Text → Type 0) (free : IsCollisionFree P)
      (real : (path : Text) → P path → text_eq (new_v5 path) nil_uuid ≡ false) where
    -- every path that has a name is one of these
    abbrev Within : AssetManager → Type 0
    Within am = (q u : Text) → lookup q am.path_to_uuid ≡ some u → P q

    Within-IsApart :
        (path : Text) (am : AssetManager)
        → P path
        → Within am
        → IsApart clean new_v5 nil_uuid path am
    Within-IsApart path am mine within p u h apart =
        elim (Bool-cases (text_eq (new_v5 path) (new_v5 p))) [
          | inr e ↦ e
          | inl e ↦
              let same : path ≡ p =
                free path p mine (within p u h) (text_eq_sound (new_v5 path) (new_v5 p) e) in
              absurd (ground (arith, apart, text_eq_refl p, ap (λ x. text_eq x p) same))
        ]

    obfuscate_clean-Within :
        (path : Text) (am : AssetManager)
        → P path
        → Within am
        → Within (obfuscate_clean clean new_v5 nil_uuid path am).1
    unfolding obfuscate_clean
    obfuscate_clean-Within path am mine within q u =
        elim (Option-cases (lookup path am.path_to_uuid)) [
          | inr (v, n) ↦ rw (n, obfuscate_clean) (within q u)
          | inl n ↦
              rw (n, obfuscate_clean)
                (λ h. elim (Bool-cases (text_eq path q)) [
                  | inl e ↦ subst P (text_eq_sound path q e) mine
                  | inr e ↦
                      within q u
                        (sym (lookup-assign_other path q (new_v5 path) am.path_to_uuid e) ∙ h)
                ])
        ]

    leads :
        (q : Text) (am : AssetManager)
        → IsConsistent clean new_v5 nil_uuid am
        → P q
        → Known q am
        → get_relative_path clean new_v5 nil_uuid (new_v5 q) am ≡ some q
    unfolding get_relative_path
    leads q am w mine k = rw (real q mine, get_relative_path) (w q (new_v5 q) k).1

    after_local :
        (d title : Text) (nodes : List Node) (am : AssetManager)
        → P (clean d)
        → Within am
        → IsConsistent clean new_v5 nil_uuid am
        → let o = obfuscate_clean clean new_v5 nil_uuid (clean d) am in
          let r = transform clean new_v5 nil_uuid nodes o.1 in
          Walked nodes o.1 r
          → Walked (image d title ∷ nodes) am (image (asset_url o.0) title ∷ r.0, r.1)
    after_local d title nodes am mine within w walked =
        let apart = Within-IsApart (clean d) am mine within in
        let known = walked.known (clean d) (obfuscate_clean_knows (clean d) am w) in
        let own = (obfuscate_clean_lem clean new_v5 nil_uuid (clean d) am apart w).2 in
        record {
          known = λ q k. walked.known q (obfuscate_clean-Known (clean d) q am k);
          agrees = walked.agrees;
          each = (
            inr (
              ap (λ u. image (asset_url u) title) own,
              leads (clean d)
                  (transform clean new_v5 nil_uuid nodes
                    (obfuscate_clean clean new_v5 nil_uuid (clean d) am).1).1
                  walked.agrees mine known,
            ),
            walked.each,
          );
        }

    transform-Walked :
        (nodes : List Node) (am : AssetManager)
        → All (λ n. has_destination n ≡ true) nodes
        → Within am
        → ((q : Text) → names q nodes ≡ true → P q)
        → IsConsistent clean new_v5 nil_uuid am
        → Walked nodes am (transform clean new_v5 nil_uuid nodes am)
    unfolding transform
    transform-Walked [] am h within at_hand w = record { known = λ q k. k; agrees = w; each = tt }
    transform-Walked (heading level ∷ nodes) am (h, hs) within at_hand w =
        let r = transform-Walked nodes am hs within at_hand w in
        record { known = r.known; agrees = r.agrees; each = (refl, r.each) }
    transform-Walked (other ∷ nodes) am (h, hs) within at_hand w =
        let r = transform-Walked nodes am hs within at_hand w in
        record { known = r.known; agrees = r.agrees; each = (refl, r.each) }
    transform-Walked (image d title ∷ nodes) am (h, hs) within at_hand w =
        let later : (q : Text) → names q nodes ≡ true → P q =
          λ q e. at_hand q (ground (arith, e)) in
        elim (Bool-cases (is_external_link d)) [
          | inl e ↦
              let r = transform-Walked nodes am hs within later w in
              rw (transform-external d title nodes am e)
                (record { known = r.known; agrees = r.agrees; each = (inl (e, refl), r.each) })
          | inr e ↦
              let mine : P (clean d) =
                at_hand (clean d) (ground (arith, e, text_eq_refl (clean d))) in
              let apart = Within-IsApart (clean d) am mine within in
              let o = obfuscate_clean clean new_v5 nil_uuid (clean d) am in
              let kept = (obfuscate_clean_lem clean new_v5 nil_uuid (clean d) am apart w).0 in
              let inside = obfuscate_clean-Within (clean d) am mine within in
              rw (transform-local d title nodes am e (ground (arith, h))) (
                after_local d title nodes am mine within w
                  (transform-Walked nodes o.1 hs inside later kept))
        ]

-- Every local image of a document gets a URL whose UUID leads back to the image's own path, once
-- cleaned, at the end of the walk: no later image takes the UUID away. External images, titles and
-- the other nodes stay as they were, in their order, and the two maps of the asset manager still agree.
-- (They agree before the walk, and no image has an empty destination. Of the paths at hand, those of the
-- document's local images and those that had a name before, no two have one UUID, and none has the nil
-- UUID.)
pub images_resolve :
    (clean : Text → Text) (new_v5 : Text → Text) (nil_uuid : Text) (nodes : List Node)
    (am : AssetManager)
    → IsCollisionFree clean new_v5 nil_uuid (AtHand clean new_v5 nil_uuid nodes am)
    → ((path : Text)
        → AtHand clean new_v5 nil_uuid nodes am path
        → text_eq (new_v5 path) nil_uuid ≡ false)
    → All (λ n. has_destination n ≡ true) nodes
    → IsConsistent clean new_v5 nil_uuid am
    → let r = transform clean new_v5 nil_uuid nodes am in
      Each clean new_v5 nil_uuid (Rewritten clean new_v5 nil_uuid r.1) nodes r.0
      × IsConsistent clean new_v5 nil_uuid r.1
images_resolve clean new_v5 nil_uuid nodes am free real named w =
    let r =
      transform-Walked clean new_v5 nil_uuid (AtHand clean new_v5 nil_uuid nodes am) free real nodes
        am named (λ q u h. inl (u, h)) (λ q h. inr h) w in
    (r.each, r.agrees)
