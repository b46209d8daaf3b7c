-- ===== src/Wrapper/Events.antt =====
-- crates/agent-dash/src/wrapper.rs: the thread that listens to the daemon, and the thread that follows
-- the size of the terminal. Both set the size of the pseudo terminal.
pub mod Race
use Prim.Native.Nat.{min}
use agent_dash.Prelude.{
  ℕ, ◌+◌, String, Bool, true, false, Option, none, some, List, [], ◌∷◌, ◌++◌, ◌&&◌, if◌then◌else◌,
  nat_eq,
}
use agent_dash.Protocol.{ServerEvent, inject_prompt, terminal_write, terminal_resize, force_redraw}
use agent_dash.Protocol.Requests.{ClientRequest, terminal_output}
use agent_dash.Wrapper.TermSize.{AtomicTermSize, store, load}

-- the size of the pseudo terminal, where each call of its `resize` succeeds, the shared cell, what the resize thread saw last, and the size
-- that the listener holds while it waits in the middle of a redraw
pub record Sizes : Type 0 where
  pub pty : ℕ × ℕ
  pub term_size : AtomicTermSize
  pub last_size : ℕ × ℕ
  pub redrawing : Option (ℕ × ℕ)

-- `rows.saturating_add(1)` on u16
abbrev pub saturating_suc : ℕ → ℕ
saturating_suc rows = min (rows + 1) 65535

-- `TerminalResize`
unfoldable pub resize : (cols rows : ℕ) → Sizes → Sizes
resize cols rows s = record s { pty = (cols, rows); term_size = store cols rows s.term_size }

-- `ForceRedraw`, up to the sleep, and after it
unfoldable pub begin_redraw : Sizes → Sizes
begin_redraw s =
    let (cols, rows) = load s.term_size in
    record s { pty = (cols, saturating_suc rows); redrawing = some (cols, rows) }

unfoldable pub end_redraw : Sizes → Sizes
end_redraw s = elim s.redrawing [ none ↦ s | some size ↦ record s { pty = size; redrawing = none } ]

-- a round of the resize thread, with the size of the terminal if it can be read
unfoldable pub follow_terminal : Option (ℕ × ℕ) → Sizes → Sizes
follow_terminal none s = s
follow_terminal (some (cols, rows)) s =
    if nat_eq cols s.last_size.0 && nat_eq rows s.last_size.1
    then s
    else record (resize cols rows s) { last_size = (cols, rows) }

-- What is written to the agent on an event, piece by piece, where base64 decoding is a parameter; a
-- pause of 50 milliseconds lies between the text of a prompt and the carriage return.
unfoldable pub typed :
    {V : Type 0} → (String → List ℕ) → (String → Option (List ℕ)) → ServerEvent V → List (List ℕ)
typed into_bytes decode (inject_prompt text) = into_bytes text ∷ (13 ∷ []) ∷ []
typed into_bytes decode (terminal_write payload) = elim (decode payload) [
  | none ↦ []
  | some bytes ↦ bytes ∷ []
]
typed into_bytes decode _ = []

-- the whole of an event, where nothing comes between the two halves of a redraw
unfoldable pub on_event : {V : Type 0} → ServerEvent V → Sizes → Sizes
on_event (terminal_resize cols rows) s = resize cols rows s
on_event force_redraw s = end_redraw (begin_redraw s)
on_event _ s = s

-- the requests on the new connection: the registration, then the screen if there is anything on it
unfoldable pub reconnect_requests :
    {V : Type 0} → String → ClientRequest V → Option String → List (ClientRequest V)
reconnect_requests sid registration none = registration ∷ []
reconnect_requests sid registration (some snapshot) =
    registration ∷ terminal_output sid snapshot ∷ []
