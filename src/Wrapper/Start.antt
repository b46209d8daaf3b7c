-- ===== src/Wrapper/Start.antt =====
-- crates/agent-dash/src/wrapper.rs: what `run` does before the agent starts, and what it tells the
-- daemon. The environment, the file system and git are parameters.
use agent_dash.Prelude.{
  ℕ, String, Bool, false, Option, none, some, List, [], ◌∷◌, if◌then◌else◌, and_then, map_option,
  unwrap_or, is_none,
}
use Prim.Native.String.{◌++◌}
use agent_dash.Messages.Strings.{trim}
use agent_dash.Protocol.Requests.{ClientRequest, register_wrapper}

pub record RunOptions : Type 0 where
  pub headless : Bool
  pub cols : Option ℕ
  pub rows : Option ℕ
  pub session_id : Option String
  pub cwd : Option String

-- `impl Default for RunOptions`
abbrev pub default_options : RunOptions
default_options = record {
  headless = false;
  cols = none;
  rows = none;
  session_id = none;
  cwd = none;
}

-- the size of the pseudo terminal, columns first, with the real terminal's if it has one
unfoldable pub pty_size : Option (ℕ × ℕ) → RunOptions → ℕ × ℕ
pty_size terminal opts =
    let (tc, tr) = unwrap_or terminal (80, 24) in
    if opts.headless
    then (unwrap_or opts.cols 120, unwrap_or opts.rows 36)
    else (unwrap_or opts.cols tc, unwrap_or opts.rows tr)

abbrev pub session_id_of : String → RunOptions → String
session_id_of pid opts = unwrap_or opts.session_id ("wrap-" ++ pid)

-- the first directory of the path that has the binary
unfoldable pub find_in : (String → String) → (String → Bool) → List String → Option String
find_in joined is_file [] = none
find_in joined is_file (dir ∷ dirs) =
    let later = find_in joined is_file dirs in
    if is_file (joined dir) then some (joined dir) else later

-- `which`, on the split value of PATH, if it is set
abbrev pub which : (String → String) → (String → Bool) → Option (List String) → Option String
which joined is_file path = and_then path (find_in joined is_file)

-- what became of the command that installs the agent
pub data Install : Type 0 where
  installed failed not_started : Install

-- the exit code with which `run` ends before it starts the agent, if it does; the search for the
-- binary is made before, and again after it was installed
unfoldable pub install_agent : (before after : Option String) → Install → Option ℕ
install_agent before after result =
    if is_none before
    then elim result [
      | installed ↦ if is_none after then some 1 else none
      | failed ↦ some 1
      | not_started ↦ some 1
    ]
    else none

-- `git rev-parse --abbrev-ref HEAD`: whether it succeeded, and its output if that is UTF-8
unfoldable pub git_branch : Option (Bool × Option String) → String
git_branch none = ""
git_branch (some (success, stdout)) = if success then unwrap_or (map_option trim stdout) "" else ""

-- what the registration needs of the world: the branch of a directory, and the last part of a path
pub record Directory : Type 0 where
  pub branch_of : String → String
  pub file_name : String → Option String

abbrev pub register_request :
    {V : Type 0} → Directory → String → String → Option String → ClientRequest V
register_request dir sid agent cwd =
    register_wrapper sid agent cwd (some (unwrap_or (map_option dir.branch_of cwd) ""))
      (some (unwrap_or (and_then cwd dir.file_name) "")) none

abbrev pub or_current : Option String → Option String → Option String
or_current none current = current
or_current (some cwd) current = some cwd

-- the request at the start of the wrapper: the directory is that of the options, or the current one
unfoldable pub first_registration :
    {V : Type 0}
    → Directory
    → (sid agent : String) → (current : Option String) → RunOptions
    → ClientRequest V
first_registration dir sid agent current opts =
    register_request dir sid agent (or_current opts.cwd current)

-- the request after the daemon was gone: always with the current directory
unfoldable pub registration_again :
    {V : Type 0} → Directory → (sid agent : String) → (current : Option String) → ClientRequest V
registration_again dir sid agent current = register_request dir sid agent current
