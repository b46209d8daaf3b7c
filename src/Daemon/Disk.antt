-- ===== src/Daemon/Disk.antt =====
-- crates/agent-dash/src/daemon.rs: the pictures that come with a prompt, and the search for a journal.
pub mod Pictures
use agent_dash.Prelude.{
  ℕ, ◌+◌, String, Bool, Option, none, some, List, [], ◌∷◌, ◌==◌, ◌&&◌, if◌then◌else◌, map_option,
}
use Prim.Native.String.{◌++◌}
use package.text.Mathlib.Text.{starts_with}
use agent_dash.Protocol.{ImageAttachment}
use agent_dash.Messages.Strings.{show}
use agent_dash.Daemon.{Daemon, Env, DirEntry, ProjectEntry, saved, emit}

abbrev pub extension : String → String
extension mime_type =
    if mime_type == "image/png"
    then "png"
    else if mime_type == "image/jpeg"
    then "jpg"
    else if mime_type == "image/gif"
    then "gif"
    else if mime_type == "image/webp"
    then "webp"
    else "png"

-- `img-{ts}-{i}.{ext}` in the directory of pictures
unfoldable pub image_path : (ts i : ℕ) → (mime_type : String) → String
image_path ts i mime_type =
    "/tmp/agent-dash-images/img-" ++ (show ts ++ ("-" ++ (show i ++ ("." ++ extension mime_type))))

unfoldable pub first_file : String → List DirEntry → Option String
first_file id [] = none
first_file id (file ∷ files) =
    let later = first_file id files in
    if file.is_jsonl && starts_with file.file_stem id then some file.path else later

module _ {V P : Type 0} (env : Env V P) where
  -- the rounds from the i-th picture on: the paths, unless one fails, and what was written
  unfoldable pub save_each :
      ℕ → List ImageAttachment → Daemon V P → Option (List String) × Daemon V P
  save_each i [] d = (some [], d)
  save_each i (image ∷ images) d =
      let path = image_path env.now i image.mime_type in
      elim (env.decode image.payload) [
        | none ↦ (none, d)
        | some bytes ↦
            let (paths, d') = save_each (i + 1) images (emit (saved path bytes) d) in
            if env.write_file path then (map_option (λ rest. path ∷ rest) paths, d') else (none, d)
      ]

  unfoldable pub save_images_to_temp :
      List ImageAttachment → Daemon V P → Option (List String) × Daemon V P
  save_images_to_temp images d = if env.create_image_dir then save_each 0 images d else (none, d)

  -- the files of one project
  abbrev pub found_in : String → ProjectEntry → Option String
  found_in id entry =
      if entry.is_dir
      then elim (env.read_project_dir entry.name) [ none ↦ none | some files ↦ first_file id files ]
      else none

  unfoldable pub first_project : String → List ProjectEntry → Option String
  first_project id [] = none
  first_project id (entry ∷ entries) =
      let later = first_project id entries in
      elim (found_in id entry) [ none ↦ later | some path ↦ some path ]

  unfoldable pub find_jsonl_on_disk : String → Option String
  find_jsonl_on_disk id = elim env.projects [
    | none ↦ none
    | some entries ↦ first_project id entries
  ]
