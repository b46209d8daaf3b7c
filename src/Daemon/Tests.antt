-- ===== src/Daemon/Tests.antt =====
-- A daemon with one wrapped session, and the theorems at it.
use agent_dash.Prelude.{ℕ, String, true, false, ◌≡◌, refl, none, some, List, [], ◌∷◌, arith, eq_iff}
use agent_dash.Table.{lookup}
use agent_dash.Protocol.{HookEnvelope, tool_end, ImageAttachment}
use agent_dash.State.{DaemonState, InternalSession, fresh_session}
use agent_dash.State.Permissions.{request}
use agent_dash.State.Invariant.{IsConsistent}
use agent_dash.Daemon.{Daemon, Env, saved}
use agent_dash.Table.Reordered.{swap}
use agent_dash.Daemon.Resolve.{resolve_session_key, child_path}
use agent_dash.Daemon.Resolve.Unordered.{resolve_session_key-Reordered}
use agent_dash.Daemon.Disk.{
  image_path, save_each, save_images_to_temp, find_jsonl_on_disk, first_project, first_file,
}
use agent_dash.Daemon.Transcripts.{canonical, handle_unwatch_session, handle_file_changed}
use agent_dash.Daemon.Transcripts.Unwatched.{unwatch_silences_all}
use agent_dash.Daemon.Disk.Pictures.{pictures_overwritten}
use agent_dash.Messages.Strings.{decimal}
use agent_dash.Daemon.Hook.{handle_hook, allow}
use agent_dash.Daemon.Requests.{handle_permission_request, handle_permission_response}
use agent_dash.Daemon.Wrappers.{handle_unregister_wrapper}
use agent_dash.Daemon.Loop.{
  new, Turn, hook, client, tick, run, register_wrapper, permission_request, permission_response,
  subscribe, update_suggestion,
}
use agent_dash.Daemon.Calm.{decisions}
use agent_dash.Daemon.Decisions.{reply_to, permission_response_lem}
use agent_dash.Daemon.Decisions.Terminal.{WasSent}
use agent_dash.Daemon.Decisions.Settled.{hook_allows}
use agent_dash.Daemon.Decisions.Between.{response-request}
use agent_dash.Daemon.Decisions.Waited.{IsWaited, askers, run-IsWaited, unregister_strands_waiter}

-- a world where all is sent and nothing is found
abbrev pub env : Env ℕ ℕ
env = record {
  now = 5;
  to_string = λ e. some "{}";
  accepts = λ n. true;
  is_closed = λ tx. false;
  can_watch = λ path. true;
  json = record {
    from_str = λ s. none;
    as_str = λ v. none;
    as_array = λ v. none;
    is_object = λ v. false;
    get = λ key v. none;
  };
  markdown_to_html = λ text. text;
  files = record { file_len = λ path. none; read_from = λ path offset. none };
  create_image_dir = true;
  write_file = λ path. true;
  save_error = "no space";
  decode = λ payload. none;
  new_parser = 0;
  process = λ bytes parser. parser;
  snapshot = λ parser. none;
  new_session_id = "web-1";
  spawn = λ args. none;
  projects = none;
  read_project_dir = λ slug. none;
  journal_entry = λ line. none;
}

abbrev wrapped : InternalSession
wrapped = record (fresh_session 0 "wrap-1") { is_main = true }

-- one main session, of a wrapper, with a request that waits
abbrev state : DaemonState ℕ
state = record {
  sessions = ("wrap-1", wrapped) ∷ [];
  pending_permissions = ("r", request "wrap-1" "r" "Bash" "ls" []) ∷ [];
}

abbrev daemon : Daemon ℕ ℕ
daemon = record new {
  state = state;
  permission_waiters = ("r", 7) ∷ [];
  wrapper_channels = ("wrap-1", 3) ∷ [];
}

state-IsConsistent : IsConsistent state
unfolding lookup
state-IsConsistent = record {
  unique_sessions = (refl, tt);
  unique_pending = (refl, tt);
  own_id = λ k s e. ground (arith, eq_iff "wrap-1" k);
  own_request = λ k p e. ground (arith, eq_iff "r" k);
}

abbrev ended_tool : HookEnvelope
ended_tool = record { event = tool_end "wrap-1" "t1"; wrapper_id = none }

abbrev other_tool : HookEnvelope
other_tool = record { event = tool_end "s2" "t1"; wrapper_id = none }

permission_response_lem_example :
    (decisions (handle_permission_response env "r" "deny" none daemon).outputs
      ≡ (7, reply_to "r" "deny" none) ∷ [])
    × (lookup "r" (handle_permission_response env "r" "deny" none daemon).permission_waiters ≡ none)
    × (lookup "r" (handle_permission_response env "r" "deny" none daemon).state.pending_permissions
        ≡ none)
    × (handle_permission_response env "q" "deny" none daemon ≡ daemon)
unfolding lookup decisions
permission_response_lem_example =
    permission_response_lem env "r" "q" "r" "deny" none 7 (request "wrap-1" "r" "Bash" "ls" [])
      daemon refl refl refl

abbrev between : List (Env ℕ ℕ × Turn ℕ)
between =
    (env, client (subscribe 4)) ∷ (env, tick) ∷ (env, client (update_suggestion "s" none)) ∷ []

response-request_example :
    decisions
      (handle_permission_response env "p" "allow" none
        (run between (handle_permission_request env "p" "s" "Bash" "ls" [] 9 daemon))).outputs
    ≡ (9, reply_to "p" "allow" none) ∷ []
unfolding decisions
response-request_example =
    response-request env env "p" "s" "Bash" "ls" "allow" [] none 9 between daemon refl

hook_allows_example :
    (lookup "r" (handle_hook env ended_tool daemon).state.pending_permissions ≡ none)
    × WasSent 7 (allow env "r") (decisions (handle_hook env ended_tool daemon).outputs)
unfolding lookup
hook_allows_example =
    hook_allows env ended_tool daemon "r" 7 (request "wrap-1" "r" "Bash" "ls" []) state-IsConsistent
      refl refl refl

abbrev turns : List (Env ℕ ℕ × Turn ℕ)
turns =
    (
      env,
      client (
          register_wrapper (record {
            session_id = "w";
            agent = "claude";
            cwd = none;
            branch = none;
            project_name = none;
            real_session_id = none;
            wrapper_tx = 3;
          })),
    )
    ∷ (env, client (permission_request "p" "w" "Bash" "ls" [] 9))
    ∷ (env, hook ended_tool)
    ∷ (env, client (permission_response "p" "w" "allow" none))
    ∷ []

run-IsWaited_example : IsWaited (askers (λ j. none) turns) (run turns new)
run-IsWaited_example = run-IsWaited turns

unregister_strands_waiter_example :
    (lookup "r" (handle_unregister_wrapper env "wrap-1" daemon).permission_waiters ≡ some 7)
    × (decisions (handle_unregister_wrapper env "wrap-1" daemon).outputs ≡ [])
    × (handle_permission_response env "r" "allow" none
          (handle_unregister_wrapper env "wrap-1" daemon)
        ≡ handle_unregister_wrapper env "wrap-1" daemon)
unfolding lookup decisions
unregister_strands_waiter_example =
    unregister_strands_waiter env env "wrap-1" "r" "allow" none 7
      (request "wrap-1" "r" "Bash" "ls" []) wrapped daemon state-IsConsistent refl refl refl refl

abbrev pair : DaemonState ℕ
pair = record state { sessions = ("wrap-1", wrapped) ∷ ("wrap-2", fresh_session 0 "wrap-2") ∷ [] }

-- a world where payloads decode
abbrev decoding : Env ℕ ℕ
decoding = record env { decode = λ payload. some (7 ∷ []) }

abbrev picture : String → ImageAttachment
picture payload = record { mime_type = "image/jpeg"; payload = payload }

abbrev first_path : String
first_path = "/tmp/agent-dash-images/img-5-0.jpg"

picture_saved :
    (save_images_to_temp decoding (picture "one" ∷ []) daemon).1.outputs
    ≡ saved first_path (7 ∷ []) ∷ daemon.outputs
unfolding save_images_to_temp save_each image_path decimal
picture_saved = refl

pictures_overwritten_example :
    (save_images_to_temp decoding (picture "two" ∷ []) daemon).0
    ≡ (save_images_to_temp decoding (picture "one" ∷ []) daemon).0
unfolding save_images_to_temp save_each image_path decimal
pictures_overwritten_example =
    pictures_overwritten decoding decoding (picture "one" ∷ []) (picture "two" ∷ []) daemon daemon
      (first_path ∷ []) (first_path ∷ []) refl refl refl refl

-- the first project is a file, and of the files of the second one is a journal of the session
abbrev projects : Env ℕ ℕ
projects = record env {
  projects =
      some
        (record { name = "notes"; is_dir = false } ∷ record { name = "-home"; is_dir = true } ∷ []);
  read_project_dir = λ slug. some (
      record { path = "abc.txt"; file_stem = "abc"; is_jsonl = false; modified = none }
      ∷ record { path = "abc.jsonl"; file_stem = "abc"; is_jsonl = true; modified = none }
      ∷ []);
}

journal_found : find_jsonl_on_disk projects "ab" ≡ some "abc.jsonl"
unfolding find_jsonl_on_disk first_project first_file
journal_found = refl

-- two pages watch the session, and one stops
abbrev watched_twice : Daemon ℕ ℕ
watched_twice = record daemon {
  message_subscribers = ("wrap-1", ("html", 4) ∷ ("html", 5) ∷ []) ∷ [];
}

unwatch_silences_all_example :
    (handle_file_changed env
      (canonical "wrap-1" watched_twice.state)
      "t.jsonl"
      (handle_unwatch_session "wrap-1" watched_twice)).outputs
    ≡ watched_twice.outputs
unwatch_silences_all_example = unwatch_silences_all env "wrap-1" "t.jsonl" watched_twice

resolve_session_key-Reordered_example :
    resolve_session_key "wr" (record state { sessions = ("b", wrapped) ∷ ("wrap-1", wrapped) ∷ [] })
    ≡ resolve_session_key "wr"
        (record state { sessions = ("wrap-1", wrapped) ∷ ("b", wrapped) ∷ [] })
resolve_session_key-Reordered_example =
    resolve_session_key-Reordered "wr" state (swap ("b", wrapped) ("wrap-1", wrapped) [] refl)

-- of two children of a wrapper, the one whose entry comes first gives the transcript
abbrev with_path : String → String → InternalSession
with_path id path = record (fresh_session 0 id) {
  parent_wrapper_id = some "w";
  jsonl_path = some path;
}

first_child :
    (child_path (λ id. none) "w" (("a", with_path "a" "1") ∷ ("b", with_path "b" "2") ∷ [])
      ≡ some "1")
    × (child_path (λ id. none) "w" (("b", with_path "b" "2") ∷ ("a", with_path "a" "1") ∷ [])
        ≡ some "2")
unfolding child_path
first_child = (refl, refl)
