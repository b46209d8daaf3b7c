-- ===== src/Daemon/Calm/Wrapping.antt =====
-- The handlers of wrappers and prompts, but for `UnregisterWrapper`, leave the permission requests
-- alone.
use agent_dash.Prelude.{
  ◌+◌, ℕ, String, ◌≡◌, refl, Option, none, some, List, [], ◌∷◌, arith, Option-cases, Bool-cases,
  both_branches, inl, inr, is_empty, is_none, ◌==◌,
}
use agent_dash.Table.{lookup}
use agent_dash.Session.{working}
use agent_dash.Protocol.{ServerEvent, ImageAttachment, inject_prompt}
use agent_dash.State.{InternalSession, session_at, on_session, ensure_session, set_status}
use agent_dash.State.Invariant.{ensure_session-IsConsistent, set_status-IsConsistent}
use agent_dash.Daemon.{Daemon, Env, event, with_state, dirty, attempt, delivered, broadcast_state}
use agent_dash.Daemon.Disk.{find_jsonl_on_disk, save_images_to_temp, save_each, image_path}
use agent_dash.Daemon.Hook.{
  set_path, alias_channel, link_wrapper, make_child, set_paths, set_missing_path, populate_path,
}
use agent_dash.Daemon.Resolve.{resolve_jsonl_path, find_wrapper_tx}
use agent_dash.Daemon.Wrappers.{
  Registration, register, redraw_watched, find_path, relink, handle_register_wrapper,
  handle_update_suggestion, handle_update_thinking_text, differ, is_subagent, inject,
  handle_send_prompt, set_suggestion, set_thinking, respond, augmented,
}
use agent_dash.Daemon.Calm.{
  IsCalm, IsQuiet, decisions, IsQuiet-refl, IsQuiet-trans, IsCalm-refl, IsCalm-trans,
  IsCalm-of_quiet, IsCalm-of_session, broadcast_state-IsQuiet,
}

module _ {V P : Type 0} where
  pub ensure_session-IsCalm :
      (now : ℕ) (k : String) (d : Daemon V P) → IsCalm d (with_state (ensure_session now k) d)
  unfolding ensure_session
  ensure_session-IsCalm now k d = record {
    pending = ground arith;
    waiters = refl;
    decided = refl;
    consistent = ensure_session-IsConsistent now k d.state;
  }

  pub set_status-IsCalm :
      (now : ℕ) (k : String) (d : Daemon V P) → IsCalm d (with_state (set_status now k working) d)
  unfolding set_status
  set_status-IsCalm now k d = record {
    pending = refl;
    waiters = refl;
    decided = refl;
    consistent = set_status-IsConsistent now k working d.state;
  }

  alias_channel-IsQuiet : (wid sid : String) (d : Daemon V P) → IsQuiet d (alias_channel wid sid d)
  unfolding alias_channel
  alias_channel-IsQuiet wid sid d = record {
    state = ground arith;
    waiters = ground arith;
    decided = ground arith;
  }

module _ {V P : Type 0} (env : Env V P) where
  pub link_wrapper-IsCalm :
      (wrapper : Option String) (sid : String) (d : Daemon V P)
      → IsCalm d (link_wrapper env wrapper sid d)
  unfolding link_wrapper
  link_wrapper-IsCalm none sid d = IsCalm-refl d
  link_wrapper-IsCalm (some wid) sid d =
      IsCalm-trans (IsCalm-of_quiet (alias_channel-IsQuiet wid sid d)) (
        IsCalm-trans (ensure_session-IsCalm env.now sid _)
          (IsCalm-of_session sid (make_child wid sid) _ (λ s. ground arith)))

  set_paths-IsCalm :
      (wrapper : Option String) (sid path : String) (d : Daemon V P)
      → IsCalm d (with_state (set_paths env wrapper sid path) d)
  set_paths-IsCalm none sid path d = IsCalm-of_session sid (set_path path) d (λ s. refl)
  set_paths-IsCalm (some wid) sid path d = elim (Bool-cases (wid == sid)) [
    | inl own ↦ rw own (IsCalm-of_session sid (set_path path) d (λ s. refl))
    | inr child ↦ rw child (
        IsCalm-trans (IsCalm-of_session sid (set_path path) d (λ s. refl))
          (IsCalm-of_session wid (set_missing_path path) _ (λ s. ground arith)))
  ]

  pub populate_path-IsCalm :
      (wrapper : Option String) (sid : String) (d : Daemon V P)
      → IsCalm d (with_state (populate_path env wrapper sid) d)
  unfolding populate_path
  populate_path-IsCalm wrapper sid d = elim (Option-cases (session_at sid d.state)) [
    | inl absent ↦ rw (absent, populate_path) (IsCalm-refl d)
    | inr (s, there) ↦ elim (Bool-cases (is_none s.jsonl_path)) [
      | inr has ↦ rw (there, populate_path, has) (IsCalm-refl d)
      | inl lacks ↦ elim (Option-cases (resolve_jsonl_path (find_jsonl_on_disk env) sid d.state)) [
        | inl nowhere ↦ rw (there, populate_path, lacks, nowhere) (IsCalm-refl d)
        | inr (path, found) ↦
            rw (there, populate_path, lacks, found) (set_paths-IsCalm wrapper sid path d)
      ]
    ]
  ]

  redraw_watched-IsQuiet : (sid : String) (d : Daemon V P) → IsQuiet d (redraw_watched env sid d)
  unfolding redraw_watched decisions
  redraw_watched-IsQuiet sid d = elim (Option-cases (lookup sid d.terminal_subscribers)) [
    | inl none_there ↦ rw (none_there, redraw_watched) (IsQuiet-refl d)
    | inr (subs, there) ↦ elim (Bool-cases (is_empty subs)) [
      | inl nobody ↦ rw (there, redraw_watched, nobody) (IsQuiet-refl d)
      | inr watched ↦ elim (Option-cases (lookup sid d.wrapper_channels)) [
        | inl unlinked ↦ rw (there, redraw_watched, watched, unlinked) (IsQuiet-refl d)
        | inr (tx, linked) ↦
            rw (there, redraw_watched, watched, linked)
              (record { state = refl; waiters = refl; decided = refl })
      ]
    ]
  ]

  find_path-IsCalm :
      (sid real_id : String) (d : Daemon V P) → IsCalm d (with_state (find_path env sid real_id) d)
  unfolding find_path
  find_path-IsCalm sid real_id d = elim (Option-cases (session_at sid d.state)) [
    | inl absent ↦ rw (absent, find_path) (IsCalm-refl d)
    | inr (s, there) ↦ elim (Bool-cases (is_none s.jsonl_path)) [
      | inr has ↦ rw (there, find_path, has) (IsCalm-refl d)
      | inl lacks ↦ elim (Option-cases (find_jsonl_on_disk env real_id)) [
        | inl nowhere ↦ rw (there, find_path, lacks, nowhere) (IsCalm-refl d)
        | inr (path, found) ↦
            rw (there, find_path, lacks, found)
              (IsCalm-of_session sid (set_path path) d (λ s. refl))
      ]
    ]
  ]

  relink-IsCalm :
      (sid : String) (real_id : Option String) (d : Daemon V P)
      → IsCalm d (relink env sid real_id d)
  unfolding relink
  relink-IsCalm sid none d = IsCalm-refl d
  relink-IsCalm sid (some real_id) d = elim (Option-cases (lookup sid d.wrapper_channels)) [
    | inl unlinked ↦ rw (unlinked, relink) (find_path-IsCalm sid real_id d)
    | inr (tx, linked) ↦
        rw (linked, relink)
          (IsCalm-trans
            (IsCalm-of_quiet {d = d} (record { state = refl; waiters = refl; decided = refl }))
            (find_path-IsCalm sid real_id _))
  ]

  pub register_wrapper-IsCalm :
      (reg : Registration) (d : Daemon V P) → IsCalm d (handle_register_wrapper env reg d)
  unfolding handle_register_wrapper
  register_wrapper-IsCalm reg d = IsCalm-trans (ensure_session-IsCalm env.now reg.session_id d) (
      IsCalm-trans (IsCalm-of_session reg.session_id (register reg) _ (λ s. refl)) (
        IsCalm-trans (IsCalm-of_quiet (record { state = refl; waiters = refl; decided = refl })) (
          IsCalm-trans (IsCalm-of_quiet (redraw_watched-IsQuiet reg.session_id _)) (
            IsCalm-trans (relink-IsCalm reg.session_id reg.real_session_id _) (
              IsCalm-of_quiet (
                IsQuiet-trans (record { state = refl; waiters = refl; decided = refl })
                  (broadcast_state-IsQuiet env _)))))))

  -- a change of one session that is broadcast
  told-IsCalm :
      (sid : String) (f : InternalSession → InternalSession) (d : Daemon V P)
      → ((s : InternalSession) → (f s).session_id ≡ s.session_id)
      → IsCalm d (broadcast_state env (dirty (with_state (on_session sid f) d)))
  told-IsCalm sid f d keeps = IsCalm-trans (IsCalm-of_session sid f d keeps) (
      IsCalm-of_quiet (
        IsQuiet-trans (record { state = refl; waiters = refl; decided = refl })
          (broadcast_state-IsQuiet env _)))

  pub update_suggestion-IsCalm :
      (sid : String) (suggestion : Option String) (d : Daemon V P)
      → IsCalm d (handle_update_suggestion env sid suggestion d)
  unfolding handle_update_suggestion
  update_suggestion-IsCalm sid suggestion d = elim (Option-cases (session_at sid d.state)) [
    | inl absent ↦ rw (absent, handle_update_suggestion) (IsCalm-refl d)
    | inr (s, there) ↦ elim (Bool-cases (differ s.prompt_suggestion suggestion)) [
      | inl new ↦
          rw (there, handle_update_suggestion, new)
            (told-IsCalm sid (set_suggestion suggestion) d (λ s. refl))
      | inr same ↦ rw (there, handle_update_suggestion, same) (IsCalm-refl d)
    ]
  ]

  pub update_thinking_text-IsCalm :
      (sid : String) (text : Option String) (d : Daemon V P)
      → IsCalm d (handle_update_thinking_text env sid text d)
  unfolding handle_update_thinking_text
  update_thinking_text-IsCalm sid text d = elim (Option-cases (session_at sid d.state)) [
    | inl absent ↦ rw (absent, handle_update_thinking_text) (IsCalm-refl d)
    | inr (s, there) ↦ elim (Bool-cases (differ s.thinking_text text)) [
      | inl new ↦
          rw (there, handle_update_thinking_text, new)
            (told-IsCalm sid (set_thinking text) d (λ s. refl))
      | inr same ↦ rw (there, handle_update_thinking_text, same) (IsCalm-refl d)
    ]
  ]

  inject-IsCalm : (sid text : String) (d : Daemon V P) → IsCalm d (inject env sid text d).1
  unfolding inject decisions
  inject-IsCalm sid text d = elim (Bool-cases (is_subagent sid d.state)) [
    | inl child ↦ rw (child, inject) (IsCalm-refl d)
    | inr main ↦ elim (Option-cases (find_wrapper_tx sid d.wrapper_channels)) [
      | inl unwrapped ↦ rw (main, inject, unwrapped) (IsCalm-refl d)
      | inr (tx, wrapped) ↦
          let sent : IsCalm d (attempt env (event tx (inject_prompt text)) d) =
            IsCalm-of_quiet (record { state = refl; waiters = refl; decided = refl }) in
          rw (main, inject, wrapped)
            (both_branches (λ (result : ServerEvent V × Daemon V P). IsCalm d result.1)
              (delivered env d)
              (IsCalm-trans sent (
                IsCalm-trans (set_status-IsCalm env.now sid _)
                  (IsCalm-of_quiet (broadcast_state-IsQuiet env _))))
              sent)
    ]
  ]

  respond-IsCalm :
      (reply : ℕ) (result : ServerEvent V × Daemon V P) (d : Daemon V P)
      → IsCalm d result.1
      → IsCalm d (respond env reply result)
  unfolding decisions
  respond-IsCalm reply result d calm =
      IsCalm-trans calm (IsCalm-of_quiet (record { state = refl; waiters = refl; decided = refl }))

  save_each-IsCalm :
      (i : ℕ) (images : List ImageAttachment) (d : Daemon V P)
      → IsCalm d (save_each env i images d).1
  unfolding save_each decisions
  save_each-IsCalm i [] d = IsCalm-refl d
  save_each-IsCalm i (image ∷ images) d = elim (Option-cases (env.decode image.payload)) [
    | inl failed ↦ rw (failed, save_each) (IsCalm-refl d)
    | inr (bytes, decoded) ↦
        rw (decoded, save_each)
          (both_branches (λ (r : Option (List String) × Daemon V P). IsCalm d r.1)
            (env.write_file (image_path env.now i image.mime_type))
            (IsCalm-trans
              (IsCalm-of_quiet (record { state = refl; waiters = refl; decided = refl }))
              (save_each-IsCalm (i + 1) images _))
            (IsCalm-refl d))
  ]

  save_images-IsCalm :
      (images : List ImageAttachment) (d : Daemon V P)
      → IsCalm d (save_images_to_temp env images d).1
  unfolding save_images_to_temp
  save_images-IsCalm images d =
      both_branches (λ (r : Option (List String) × Daemon V P). IsCalm d r.1) env.create_image_dir
        (save_each-IsCalm 0 images d) (IsCalm-refl d)

  pub send_prompt-IsCalm :
      (sid text : String) (images : List ImageAttachment) (reply : ℕ) (d : Daemon V P)
      → IsCalm d (handle_send_prompt env sid text images reply d)
  unfolding handle_send_prompt
  send_prompt-IsCalm sid text [] reply d =
      respond-IsCalm reply (inject env sid text d) d (inject-IsCalm sid text d)
  send_prompt-IsCalm sid text (image ∷ images) reply d =
      let before = save_images-IsCalm (image ∷ images) d in
      let after = (save_images_to_temp env (image ∷ images) d).1 in
      elim (Option-cases (save_images_to_temp env (image ∷ images) d).0) [
        | inl failed ↦ rw (failed, handle_send_prompt) (respond-IsCalm reply _ d before)
        | inr (paths, found) ↦
            rw (found, handle_send_prompt)
              (respond-IsCalm reply _ d
                (IsCalm-trans before (inject-IsCalm sid (augmented text paths) after)))
      ]
