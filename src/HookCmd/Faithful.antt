-- ===== src/HookCmd/Faithful.antt =====
-- What the daemon hears of a hook, and the agent of a decision.
use agent_dash.Prelude.{
  String, false, ◌≡◌, refl, ◌∙◌, ap, sym, subst, Option, none, some, ◌==◌, eq_iff, arith, ◌↔◌,
  unwrap_or, Bool-cases, Option-cases, inl, inr,
}
use agent_dash.Paths.{replace}
use agent_dash.Messages.Json.{Json, get_str}
use agent_dash.Protocol.{event_session, HookPermissionDecision}
use agent_dash.HookCmd.{
  Sent, event, request, deny, dispatch, run, str_of, translate_permission_decision,
}

-- the session that what is sent is about
abbrev pub sent_session : {V : Type 0} → Sent V → String
sent_session (event e) = event_session e
sent_session (request _ sid _ _ _) = sid

or_empty_full : (o : Option String) → (unwrap_or o "" == "") ≡ false → o ≡ some (unwrap_or o "")
or_empty_full none h = ground (arith, h)
or_empty_full (some s) h = refl

module _ {V : Type 0} (json : Json V) where
  dispatch-session :
      (fresh kind sid : String) (input : V) (sent : Sent V)
      → dispatch json fresh kind input sid ≡ some sent
      → sent_session sent ≡ sid
  unfolding dispatch
  dispatch-session fresh kind sid input sent e = ground (arith, e)

  -- What the hook command sends is about the session that its input names, which is not empty.
  pub run_session :
      (fresh event_type stdin : String) (sent : Sent V)
      → run json fresh event_type stdin ≡ some sent
      → (input : V) × (json.from_str stdin ≡ some input)
        × (get_str json "session_id" input ≡ some (sent_session sent))
        × ((sent_session sent == "") ≡ false)
  unfolding run
  run_session fresh event_type stdin sent e = elim (Option-cases (json.from_str stdin)) [
    | inl malformed ↦ ground (arith, malformed, e)
    | inr (input, read) ↦
        let sid : String = str_of json "session_id" input in
        elim (Bool-cases (sid == "")) [
          | inl empty ↦ ground (arith, read, empty, e)
          | inr full ↦
              let same : sent_session sent ≡ sid =
                dispatch-session fresh (replace "_" "-" event_type) sid input sent
                  (ground (arith, read, full, e)) in
              (
                input,
                read,
                or_empty_full (get_str json "session_id" input) full ∙ ap some (sym same),
                subst (λ s. (s == "") ≡ false) (sym same) full,
              )
        ]
  ]

  -- The agent is told to deny exactly when the decision of the client is the text "deny"; every
  -- other text, known or not, is an allowance.
  pub translate_permission_decision_deny :
      (d : HookPermissionDecision V) (tool : String)
      → (translate_permission_decision json d tool ≡ deny "Denied from agent-dash")
        ↔ (d.decision ≡ "deny")
  unfolding translate_permission_decision
  translate_permission_decision_deny d tool = (
    (λ e. ground (arith, e, eq_iff d.decision "deny")),
    (λ e. ground (arith, e, eq_iff d.decision "deny")),
  )
