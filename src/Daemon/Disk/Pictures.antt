-- ===== src/Daemon/Disk/Pictures.antt =====
-- Where the pictures of a prompt are put.
use agent_dash.Prelude.{
  both_branches, ◌⊎◌, ℕ, ◌+◌, String, Option, none, some, List, [], ◌∷◌, map, ◌≡◌, refl, sym, ap,
  ◌∙◌, Option-cases, inl, inr, map_option,
}
use agent_dash.Protocol.{ImageAttachment}
use agent_dash.Daemon.{Daemon, Env, saved, emit}
use agent_dash.Daemon.Disk.{image_path, save_each, save_images_to_temp}

-- the paths for pictures of such types, from the i-th on
file_names : (ts i : ℕ) → List String → List String
file_names ts i [] = []
file_names ts i (mime_type ∷ types) = image_path ts i mime_type ∷ file_names ts (i + 1) types

abbrev types : List ImageAttachment → List String
types images = map (λ image. image.mime_type) images

the_some :
    {A : Type 0} {o : Option A} {found expected : A}
    → o ≡ some found
    → (o ≡ none) ⊎ (o ≡ some expected)
    → found ≡ expected
the_some e (inl h) = cc
the_some e (inr h) = cc

module _ {V P : Type 0} where
  -- the rounds fail, or yield the paths that the time, the places and the types determine
  save_each-paths :
      (env : Env V P) (i : ℕ) (images : List ImageAttachment) (d : Daemon V P)
      → ((save_each env i images d).0 ≡ none)
        ⊎ ((save_each env i images d).0 ≡ some (file_names env.now i (types images)))
  unfolding save_each file_names
  save_each-paths env i [] d = inr refl
  save_each-paths env i (image ∷ images) d = elim (Option-cases (env.decode image.payload)) [
    | inl failed ↦ rw (failed, save_each) (inl refl)
    | inr (bytes, decoded) ↦
        let path = image_path env.now i image.mime_type in
        let rest = save_each env (i + 1) images (emit (saved path bytes) d) in
        let names = file_names env.now (i + 1) (types images) in
        rw (decoded, save_each)
          (both_branches
            (λ (r : Option (List String) × Daemon V P). (r.0 ≡ none) ⊎ (r.0 ≡ some (path ∷ names)))
            (env.write_file path)
            (elim (save_each-paths env (i + 1) images (emit (saved path bytes) d)) [
              | inl e ↦ inl (ap (map_option (λ more. path ∷ more)) e)
              | inr e ↦ inr (ap (map_option (λ more. path ∷ more)) e)
            ])
            (inl refl))
  ]

  save_images-paths :
      (env : Env V P) (images : List ImageAttachment) (d : Daemon V P)
      → ((save_images_to_temp env images d).0 ≡ none)
        ⊎ ((save_images_to_temp env images d).0 ≡ some (file_names env.now 0 (types images)))
  unfolding save_images_to_temp
  save_images-paths env images d =
      let names = file_names env.now 0 (types images) in
      both_branches (λ (r : Option (List String) × Daemon V P). (r.0 ≡ none) ⊎ (r.0 ≡ some names))
        env.create_image_dir (save_each-paths env 0 images d) (inl refl)

  -- Two prompts within one second whose pictures have the same types in the same order, and are all
  -- saved, have them saved at the same paths: the later ones replace the earlier ones.
  pub pictures_overwritten :
      (env env' : Env V P) (images images' : List ImageAttachment) (d d' : Daemon V P)
      (paths paths' : List String)
      → env.now ≡ env'.now
      → types images ≡ types images'
      → (save_images_to_temp env images d).0 ≡ some paths
      → (save_images_to_temp env' images' d').0 ≡ some paths'
      → (save_images_to_temp env' images' d').0 ≡ (save_images_to_temp env images d).0
  pictures_overwritten env env' images images' d d' paths paths' now same e e' =
      let first = the_some e (save_images-paths env images d) in
      let second = the_some e' (save_images-paths env' images' d') in
      e' ∙ ap some (second ∙ rw (first, now, same) refl) ∙ sym e
