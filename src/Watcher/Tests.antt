-- ===== src/Watcher/Tests.antt =====
-- Two sessions on one transcript, and the theorems at them.
use agent_dash.Prelude.{true, List, [], ◌∷◌}
use agent_dash.Watcher.{new}
use agent_dash.Watcher.Maps.{Call, watches, unwatches, run, IsLinked, run-IsLinked}

abbrev calls : List Call
calls = watches true "s1" "/a.jsonl" ∷ watches true "w1" "/a.jsonl" ∷ unwatches "s1" ∷ []

run-IsLinked_example : IsLinked (run calls new)
run-IsLinked_example = run-IsLinked calls
