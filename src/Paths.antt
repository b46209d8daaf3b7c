-- ===== src/Paths.antt =====
-- crates/agent-dash-core/src/paths.rs: the directory name of a project.
use agent_dash.Prelude.{String, nat_eq, if◌then◌else◌}
use Prim.Native.String.{[], ◌∷◌}
use Prim.Native.Char.{Char, code}

-- `replace` of one character by another
unfoldable pub replace : Char → Char → String → String
replace old new [] = []
replace old new (c ∷ s) =
    let rest = replace old new s in if nat_eq (code c) (code old) then new ∷ rest else c ∷ rest

unfoldable pub cwd_to_project_slug : String → String
cwd_to_project_slug cwd = replace "\\" "-" (replace "/" "-" cwd)
