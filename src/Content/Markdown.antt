-- ===== src/Content/Markdown.antt =====
-- content/markdown.go: the links to images, the first heading, and the tag of an image. The parser
-- and the renderer are goldmark's; a document is the list of the nodes that ast.Walk enters, in its
-- order. The walk ends at the first error, and Transform returns none.
use blogengine.Prelude.{
  ℕ, Bool, List, [], ◌∷◌, ◌++◌, Option, none, some, ◌==◌, true, false, ◌&&◌, any, if◌then◌else◌,
}
use blogengine.Prelude.Text.{Text, codes, lower_ascii}
use blogengine.Content.Assets.{AssetManager, obfuscate}

pub data Node : Type 0 where
  image : (destination title : Text) → Node
  heading : (level : ℕ) → Node
  other : Node

-- strings.HasPrefix(s, prefix)
abbrev pub has_prefix : Text → Text → Bool
has_prefix s [] = true
has_prefix [] (p ∷ prefix) = false
has_prefix (c ∷ s) (p ∷ prefix) = c == p && has_prefix s prefix

abbrev pub external_prefixes : List Text
external_prefixes = codes "http" ∷ codes "https" ∷ codes "ftp" ∷ codes "ftps" ∷ codes "sftp" ∷ []

-- strings.ToLower of a text, as far as these prefixes see it
unfoldable pub is_external_link : Text → Bool
unfolding lower_ascii
is_external_link s = any (has_prefix (lower_ascii s)) external_prefixes

-- url.JoinPath("/assets/", id): a UUID has nothing to escape or to clean
abbrev pub asset_url : Text → Text
asset_url id = codes "/assets/" ++ id

-- what follows Obfuscate for one image that is not external: `r` is what it returned, and `rest` the
-- walk of the nodes after the image
unfoldable pub transform_image :
    (destination title : Text)
    → List Node
    → (AssetManager → List Node × AssetManager)
    → Option Text × AssetManager
    → List Node × AssetManager
transform_image destination title nodes rest (none, am) = (image destination title ∷ nodes, am)
transform_image destination title nodes rest (some id, am) =
    let after = rest am in (image (asset_url id) title ∷ after.0, after.1)

module _ (clean : Text → Text) (new_v5 : Text → Text) (nil_uuid : Text) where
  -- assetTransformer.Transform
  unfoldable pub transform : List Node → AssetManager → List Node × AssetManager
  unfolding transform_image is_external_link obfuscate
  transform [] am = ([], am)
  transform (image destination title ∷ nodes) am =
      let skipped = transform nodes am in
      let rewritten =
        transform_image destination title nodes (transform nodes)
          (obfuscate clean new_v5 nil_uuid destination am) in
      if is_external_link destination
      then (image destination title ∷ skipped.0, skipped.1)
      else rewritten
  transform (heading level ∷ nodes) am =
      let rest = transform nodes am in (heading level ∷ rest.0, rest.1)
  transform (other ∷ nodes) am = let rest = transform nodes am in (other ∷ rest.0, rest.1)

abbrev pub is_h1 : Node → Bool
is_h1 (heading level) = level == 1
is_h1 _ = false

-- h1Stripper.Transform: what is before the heading that it takes out of the document, and what Walk
-- would enter after it; none if there is no such heading
unfoldable pub strip_h1 : List Node → Option (List Node × List Node)
strip_h1 [] = none
strip_h1 (n ∷ nodes) =
    let rest = strip_h1 nodes in
    let deeper = elim rest as (λ _. Option (List Node × List Node)) [
      | none ↦ none
      | some r ↦ some (n ∷ r.0, r.1)
    ] in
    if is_h1 n then some ([], nodes) else deeper

-- "%[1]s_800 800w, %[1]s_1200 1200w, %[1]s_1920 1920w"
unfoldable pub srcset : Text → Text
srcset dest =
    dest
    ++ (codes "_800 800w, " ++ (dest ++ (codes "_1200 1200w, " ++ (dest ++ codes "_1920 1920w"))))

-- renderImage, the tag that it writes
unfoldable pub image_tag : (dest title : Text) → Text
unfolding srcset
image_tag dest title =
    codes "<img src=\""
    ++ (dest
        ++ (codes "_800\" srcset=\""
            ++ (srcset dest
                ++ (codes
                      "\" sizes=\"(max-width: 800px) 100vw, (max-width: 1200px) 90vw, 1200px\" alt=\"\" title=\""
                    ++ (title ++ codes "\" loading=\"lazy\" class=\"post-image\">")))))
