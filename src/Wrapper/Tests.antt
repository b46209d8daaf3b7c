-- ===== src/Wrapper/Tests.antt =====
-- Screens after the tests of wrapper.rs, threads and sizes, and the theorems at them.
use agent_dash.Prelude.{
  ℕ, String, Bool, true, false, ◌≡◌, refl, Option, none, some, List, [], ◌∷◌, All, arith,
  if◌then◌else◌, nat_eq, and_then, not, map,
}
use agent_dash.Messages.Strings.{trim_start, trim_end, contains}
use agent_dash.Protocol.{terminal_resize, force_redraw}
use agent_dash.Wrapper.TermSize.{new}
use agent_dash.Wrapper.Screen.{
  Cell, Screen, from_bottom, prompt_from, dim_parts_from, fill, join_parts, suggestion_at,
  suggestion_row, row_text, detect_suggestion, is_spinner_char, thinking_row, detect_thinking_text,
}
use agent_dash.Wrapper.Lines.{lowest, has_prompt, suggestion_on, detect_suggestion-lowest}
use agent_dash.Wrapper.Threads.{
  ScreenUpdate, Vt100, Reader, Round, seen, run_sender, new_sender, Link, batches, changed,
}
use agent_dash.Wrapper.Threads.Updates.{
  suggestions, thoughts, newest, IsChanging, all_sent, run_sender_lem, IsSteady,
}
use agent_dash.Wrapper.Threads.Batches.{bytes_of, IsSmall, verdicts, batches_lem}
use agent_dash.Wrapper.Delays.{Attempt}
use agent_dash.Wrapper.Events.{Sizes}
use agent_dash.Wrapper.Events.Race.{Change, event, followed}

abbrev char_cell : Bool → String → Option Cell
char_cell is_dim s = some (record { contents = s; dim = is_dim })

-- two rows of six columns: a status line, and below it a prompt with the dim suggestion `a b`
abbrev status : ℕ → Option Cell
status c =
    if nat_eq c 0
    then char_cell false "✶"
    else if nat_eq c 2
    then char_cell false "…"
    else char_cell false ""

abbrev prompt : ℕ → Option Cell
prompt c =
    if nat_eq c 0
    then char_cell false "❯"
    else if nat_eq c 2
    then char_cell true "a"
    else if nat_eq c 4
    then char_cell true "b"
    else char_cell false ""

abbrev screen : Screen
screen = record {
  alternate_screen = false;
  rows = 2;
  width = 6;
  cell = λ r c. if nat_eq r 0 then status c else if nat_eq r 1 then prompt c else none;
}

suggests : detect_suggestion screen ≡ some "a b"
unfolding detect_suggestion from_bottom suggestion_row suggestion_at prompt_from dim_parts_from
    join_parts fill trim_start trim_end
suggests = refl

thinks : detect_thinking_text screen ≡ some "✶ …"
unfolding detect_thinking_text from_bottom thinking_row row_text is_spinner_char contains trim_start
    trim_end
thinks = refl

detect_suggestion-lowest_example : detect_suggestion screen ≡ (
    if screen.alternate_screen
    then none
    else and_then (lowest (has_prompt screen) screen.rows) (suggestion_on screen))
detect_suggestion-lowest_example = detect_suggestion-lowest screen (omega arith)

abbrev idle_update : ScreenUpdate
idle_update = record { suggestion = none; thinking_text = none }

abbrev update : ScreenUpdate
update = record { suggestion = some "ls"; thinking_text = none }

run_sender_lem_example :
    let sent = (run_sender {V = ℕ} "w" (all_sent (update ∷ update ∷ [])) new_sender).sent in
    (newest (suggestions sent) ≡ some "ls")
    × (newest (thoughts sent) ≡ none)
    × IsChanging (suggestions sent)
    × IsChanging (thoughts sent)
run_sender_lem_example = run_sender_lem ℕ "w" (update ∷ []) update

-- a parser that always shows one screen
abbrev vt : Vt100 ℕ
vt = record { set_size = λ rows cols p. p; process = λ bytes p. p; screen = λ p. screen }

abbrev shown : ScreenUpdate
shown = seen vt 0

abbrev reader : Reader ℕ
reader = record {
  parser = 0;
  last_update = idle_update;
  last_check = 0;
  last_parser_size = (6, 2);
  screen_queue = update ∷ idle_update ∷ update ∷ idle_update ∷ [];
  terminal_queue = [];
  running = true;
}

abbrev rounds : List Round
rounds = record { now = 300; term_size = (6, 2); bytes = some (65 ∷ []); is_written = true } ∷ []

is_new : changed shown idle_update ≡ true
unfolding detect_suggestion from_bottom suggestion_row suggestion_at prompt_from dim_parts_from
    join_parts fill trim_start trim_end
is_new = refl

steady : IsSteady vt (λ p. Unit {0}) shown
steady = record { shown = λ p s. refl; processed = λ bytes p s. tt; resized = λ rows cols p s. tt }

-- a first batch is lost
abbrev link : Link
link = record { is_running = λ n. true; takes = λ n. not (nat_eq n 0); reconnects = λ n. true }

batches_lem_example :
    (made : List (List ℕ × Bool)) × (batches link 0 2 ((65 ∷ []) ∷ (66 ∷ []) ∷ []) ≡ some made)
    × (bytes_of (map (λ m. m.0) made) ≡ 65 ∷ 66 ∷ [])
    × (map (λ m. m.1) made ≡ verdicts link 0 made)
    × All (λ m. IsSmall m.0) made
batches_lem_example =
    batches_lem link 0 2 ((65 ∷ []) ∷ (66 ∷ []) ∷ []) (λ n. refl) (λ n. refl) (omega arith)
      (omega arith, (omega arith, tt))

abbrev attempt : Bool → Attempt
attempt connects = record { is_running = true; connects = connects }

abbrev sizes : Sizes
sizes = record { pty = (120, 40); term_size = new 120 40; last_size = (120, 40); redrawing = none }

abbrev changes : List (Change ℕ)
changes = event (terminal_resize 80 24) ∷ event force_redraw ∷ followed (some (100, 30)) ∷ []
