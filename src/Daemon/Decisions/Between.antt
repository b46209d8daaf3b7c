-- ===== src/Daemon/Decisions/Between.antt =====
-- What comes between a permission request and its answer.
use agent_dash.Prelude.{ℕ, String, Bool, true, false, ◌≡◌, Option, List, [], ◌∷◌, ◌&&◌, arith}
use agent_dash.Daemon.{Daemon, Env}
use agent_dash.Daemon.Requests.{handle_permission_request, handle_permission_response}
use agent_dash.Daemon.Loop.{
  subscribe, get_state, permission_response, permission_request, get_messages, watch_session,
  unwatch_session, list_sessions, register_wrapper, unregister_wrapper, send_prompt,
  update_suggestion, update_thinking_text, watch_terminal, unwatch_terminal, terminal_output,
  create_session, terminal_input, terminal_resize, Turn, hook, client, file_changed, tick, turn,
  run, handle_client,
}
use agent_dash.Daemon.Calm.{IsCalm, decisions, IsCalm-refl, IsCalm-trans, IsCalm-of_quiet}
use agent_dash.Daemon.Calm.Wrapping.{
  register_wrapper-IsCalm, send_prompt-IsCalm, update_suggestion-IsCalm,
  update_thinking_text-IsCalm,
}
use agent_dash.Daemon.Calm.Reading.{
  subscribe-IsQuiet, get_state-IsQuiet, list_sessions-IsQuiet, get_messages-IsQuiet,
  watch_session-IsCalm, unwatch_session-IsCalm, watch_terminal-IsQuiet, unwatch_terminal-IsQuiet,
  terminal_output-IsQuiet, create_session-IsQuiet, send_wrapper-IsQuiet, file_changed-IsCalm,
  write_tick-IsQuiet,
}
use agent_dash.Daemon.Decisions.{reply_to, response-calm}

-- a turn that is not about permission requests: no hook event, no request or answer, and no
-- wrapper that leaves
abbrev pub is_plain : {V : Type 0} → Turn V → Bool
is_plain (hook _) = false
is_plain (client (permission_response _ _ _ _)) = false
is_plain (client (permission_request _ _ _ _ _ _)) = false
is_plain (client (unregister_wrapper _)) = false
is_plain (client _) = true
is_plain (file_changed _ _) = true
is_plain tick = true

abbrev pub all_plain : {V P : Type 0} → List (Env V P × Turn V) → Bool
all_plain [] = true
all_plain (t ∷ turns) = is_plain t.1 && all_plain turns

module _ {V P : Type 0} where
  pub turn-IsCalm :
      (env : Env V P) (t : Turn V) (d : Daemon V P) → is_plain t ≡ true → IsCalm d (turn env t d)
  unfolding turn handle_client
  turn-IsCalm env (hook _) d h = ground arith
  turn-IsCalm env (client (permission_response _ _ _ _)) d h = ground arith
  turn-IsCalm env (client (permission_request _ _ _ _ _ _)) d h = ground arith
  turn-IsCalm env (client (unregister_wrapper _)) d h = ground arith
  turn-IsCalm env (client (subscribe tx)) d h = IsCalm-of_quiet (subscribe-IsQuiet env tx d)
  turn-IsCalm env (client (get_state all reply)) d h =
      IsCalm-of_quiet (get_state-IsQuiet env all reply d)
  turn-IsCalm env (client (get_messages sid format limit reply)) d h =
      IsCalm-of_quiet (get_messages-IsQuiet env sid format limit reply d)
  turn-IsCalm env (client (watch_session sid format tx)) d h =
      watch_session-IsCalm env sid format tx d
  turn-IsCalm env (client (unwatch_session sid)) d h = unwatch_session-IsCalm sid d
  turn-IsCalm env (client (list_sessions project reply)) d h =
      IsCalm-of_quiet (list_sessions-IsQuiet env project reply d)
  turn-IsCalm env (client (register_wrapper reg)) d h = register_wrapper-IsCalm env reg d
  turn-IsCalm env (client (send_prompt sid text images reply)) d h =
      send_prompt-IsCalm env sid text images reply d
  turn-IsCalm env (client (update_suggestion sid suggestion)) d h =
      update_suggestion-IsCalm env sid suggestion d
  turn-IsCalm env (client (update_thinking_text sid text)) d h =
      update_thinking_text-IsCalm env sid text d
  turn-IsCalm env (client (watch_terminal sid tx)) d h =
      IsCalm-of_quiet (watch_terminal-IsQuiet env sid tx d)
  turn-IsCalm env (client (unwatch_terminal sid)) d h =
      IsCalm-of_quiet (unwatch_terminal-IsQuiet sid d)
  turn-IsCalm env (client (terminal_output sid payload)) d h =
      IsCalm-of_quiet (terminal_output-IsQuiet env sid payload d)
  turn-IsCalm env (client (create_session agent cwd cols rows reply)) d h =
      IsCalm-of_quiet (create_session-IsQuiet env agent cwd cols rows reply d)
  turn-IsCalm env (client (terminal_input sid payload)) d h =
      IsCalm-of_quiet (send_wrapper-IsQuiet env sid _ d)
  turn-IsCalm env (client (terminal_resize sid cols rows)) d h =
      IsCalm-of_quiet (send_wrapper-IsQuiet env sid _ d)
  turn-IsCalm env (file_changed sid path) d h = file_changed-IsCalm env sid path d
  turn-IsCalm env tick d h = IsCalm-of_quiet (write_tick-IsQuiet d)

  pub run-IsCalm :
      (turns : List (Env V P × Turn V)) (d : Daemon V P)
      → all_plain turns ≡ true
      → IsCalm d (run turns d)
  unfolding run
  run-IsCalm [] d h = IsCalm-refl d
  run-IsCalm ((env, t) ∷ turns) d h =
      IsCalm-trans (turn-IsCalm env t d (ground arith))
        (run-IsCalm turns (turn env t d) (ground arith))

  -- A hook that asks for a permission gets the answer that a client gives to its request id, once
  -- and word for word, and no other hook is told anything, if none of the turns in between is a hook
  -- event, a request for a permission, an answer to one, or the unregistration of a wrapper.
  pub response-request :
      (env env' : Env V P) (rid sid tool detail decision : String) (suggestions : List V)
      (suggestion : Option V) (reply : ℕ) (turns : List (Env V P × Turn V)) (d : Daemon V P)
      → all_plain turns ≡ true
      → decisions
          (handle_permission_response env' rid decision suggestion (
            run turns
              (handle_permission_request env rid sid tool detail suggestions reply d))).outputs
        ≡ (reply, reply_to rid decision suggestion) ∷ decisions d.outputs
  response-request env env' rid sid tool detail decision suggestions suggestion reply turns d
        plain =
      response-calm env env' rid sid tool detail decision suggestions suggestion reply d _
        (run-IsCalm turns _ plain)
