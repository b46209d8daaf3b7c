-- ===== src/Wrapper/Threads/Updates.antt =====
-- What the daemon learns of the screen.
use agent_dash.Prelude.{
  ℕ, ◌-◌, ◌≤◌, String, Bool, true, false, Option, none, some, List, [], ◌∷◌, ◌≡◌, refl, sym, ap,
  subst, ◌∙◌, arith, eq_iff, eq_refl, Bool-cases, Option-cases, inl, inr, not, ◌&&◌, leb, ltb,
  length, map, both_branches, if_true, if_false, if_false,
}
use agent_dash.Protocol.Requests.{ClientRequest, update_suggestion, update_thinking_text}
use agent_dash.Daemon.Wrappers.{differ}
use agent_dash.Wrapper.Threads.{
  ScreenUpdate, changed, Vt100, Reader, Round, fit_parser, seen, feed, check_screen, reader_round,
  same_size, try_send, run_reader, Sender, new_sender, send_suggestion, send_thinking, sender_round,
  run_sender,
}

differ-false : (a b : Option String) → differ a b ≡ false → a ≡ b
differ-false none none e = refl
differ-false none (some b) e = absurd (cc)
differ-false (some a) none e = absurd (cc)
differ-false (some a) (some b) e = ground (arith, eq_iff a b, e)

differ_same : (a : Option String) → differ a a ≡ false
differ_same none = refl
differ_same (some a) = rw (eq_refl a) refl

changed_same : (u : ScreenUpdate) → changed u u ≡ false
changed_same u = rw (differ_same u.suggestion, differ_same u.thinking_text) refl

-- the newest of some values, which are kept newest first; nothing before the first
abbrev pub newest : List (Option String) → Option String
newest [] = none
newest (v ∷ vs) = v

-- each value differs from the one before it
abbrev pub IsChanging : List (Option String) → Type 0
IsChanging [] = Unit
IsChanging (v ∷ vs) = (differ v (newest vs) ≡ true) × IsChanging vs

-- the last of some updates, or what was before
abbrev pub last_update : ScreenUpdate → List ScreenUpdate → ScreenUpdate
last_update u [] = u
last_update u (v ∷ vs) = last_update v vs

abbrev pub all_sent : List ScreenUpdate → List (ScreenUpdate × (Bool × Bool))
all_sent = map λ u. (u, (true, true))

module _ {V : Type 0} where
  -- the suggestions among some requests, and the thinking texts
  abbrev pub suggestions : List (ClientRequest V) → List (Option String)
  suggestions [] = []
  suggestions (update_suggestion sid suggestion ∷ rest) = suggestion ∷ suggestions rest
  suggestions (_ ∷ rest) = suggestions rest

  abbrev pub thoughts : List (ClientRequest V) → List (Option String)
  thoughts [] = []
  thoughts (update_thinking_text sid text ∷ rest) = text ∷ thoughts rest
  thoughts (_ ∷ rest) = thoughts rest

  -- what the sender remembers is what it has sent
  record IsInStep (s : Sender V) : Type 0 where
    running : s.running ≡ true
    suggestion : newest (suggestions s.sent) ≡ s.last_suggestion
    thinking : newest (thoughts s.sent) ≡ s.last_thinking
    suggestions_change : IsChanging (suggestions s.sent)
    thoughts_change : IsChanging (thoughts s.sent)

  send_suggestion-IsInStep :
      (sid : String) (v : Option String) (s : Sender V)
      → IsInStep s
      → IsInStep (send_suggestion sid v true s)
        × ((send_suggestion sid v true s).last_suggestion ≡ v)
  unfolding send_suggestion
  send_suggestion-IsInStep sid v s h = elim (Bool-cases (differ v s.last_suggestion)) [
    | inl new ↦
        rw (new, send_suggestion)
          (
            record {
              running = h.running;
              suggestion = refl;
              thinking = h.thinking;
              suggestions_change = (ap (differ v) h.suggestion ∙ new, h.suggestions_change);
              thoughts_change = h.thoughts_change;
            },
            refl,
          )
    | inr same ↦ rw (same, send_suggestion) (h, sym (differ-false v s.last_suggestion same))
  ]

  send_thinking-IsInStep :
      (sid : String) (v : Option String) (s : Sender V)
      → IsInStep s
      → IsInStep (send_thinking sid v true s)
        × ((send_thinking sid v true s).last_thinking ≡ v)
        × ((send_thinking sid v true s).last_suggestion ≡ s.last_suggestion)
  unfolding send_thinking
  send_thinking-IsInStep sid v s h = elim (Bool-cases (differ v s.last_thinking)) [
    | inl new ↦
        rw (new, send_thinking)
          (
            record {
              running = h.running;
              suggestion = h.suggestion;
              thinking = refl;
              suggestions_change = h.suggestions_change;
              thoughts_change = (ap (differ v) h.thinking ∙ new, h.thoughts_change);
            },
            refl,
            refl,
          )
    | inr same ↦ rw (same, send_thinking) (h, sym (differ-false v s.last_thinking same), refl)
  ]

  abbrev remembered : Sender V → ScreenUpdate
  remembered s = record { suggestion = s.last_suggestion; thinking_text = s.last_thinking }

  remembered-eq :
      (s : Sender V) (u : ScreenUpdate)
      → s.last_suggestion ≡ u.suggestion
      → s.last_thinking ≡ u.thinking_text
      → remembered s ≡ u
  remembered-eq s u e₁ e₂ = rw (e₁, e₂) refl

  sender_round-IsInStep :
      (sid : String) (u : ScreenUpdate) (s : Sender V)
      → IsInStep s
      → IsInStep (sender_round sid u (true, true) s)
        × (remembered (sender_round sid u (true, true) s) ≡ u)
  unfolding sender_round
  sender_round-IsInStep sid u s h =
      let (one, is_first) = send_suggestion-IsInStep sid u.suggestion s h in
      let s₁ = send_suggestion sid u.suggestion true s in
      let s₂ = send_thinking sid u.thinking_text true s₁ in
      let two = send_thinking-IsInStep sid u.thinking_text s₁ one in
      subst (λ s'. IsInStep s' × (remembered s' ≡ u))
        (sym (if_true {b = s₁.running} s₂ s₁ one.running))
        (two.0, remembered-eq s₂ u (two.2 ∙ is_first) two.1)

  run_sender-IsInStep :
      (sid : String) (us : List ScreenUpdate) (s : Sender V)
      → IsInStep s
      → IsInStep (run_sender sid (all_sent us) s)
        × (remembered (run_sender sid (all_sent us) s) ≡ last_update (remembered s) us)
  unfolding run_sender
  run_sender-IsInStep sid [] s h = (h, refl)
  run_sender-IsInStep sid (u ∷ us) s h =
      let (next, is_u) = sender_round-IsInStep sid u s h in
      let (later, is_last) = run_sender-IsInStep sid us (sender_round sid u (true, true) s) next in
      subst
        (λ s'.
          IsInStep (run_sender sid (all_sent us) s')
          × (remembered (run_sender sid (all_sent us) s') ≡ last_update u us))
        (sym (if_true {b = s.running} (sender_round sid u (true, true) s) s h.running))
        (later, is_last ∙ ap (λ v. last_update v us) is_u)

-- While its connection holds, the thread that sends screen updates keeps the daemon in step: after
-- any updates the newest suggestion and the newest thinking text that it has sent are those of the
-- last update, and no request repeats the value of the one before it of its kind.
pub run_sender_lem :
    (V : Type 0) (sid : String) (us : List ScreenUpdate) (u : ScreenUpdate)
    → let sent = (run_sender {V = V} sid (all_sent (u ∷ us)) new_sender).sent in
      (newest (suggestions sent) ≡ (last_update u us).suggestion)
      × (newest (thoughts sent) ≡ (last_update u us).thinking_text)
      × IsChanging (suggestions sent)
      × IsChanging (thoughts sent)
run_sender_lem V sid us u =
    let (step, is_last) = run_sender-IsInStep sid (u ∷ us) new_sender (record {
      running = refl;
      suggestion = refl;
      thinking = refl;
      suggestions_change = tt;
      thoughts_change = tt;
    }) in
    (
      step.suggestion ∙ ap (λ v. v.suggestion) is_last,
      step.thinking ∙ ap (λ v. v.thinking_text) is_last,
      step.suggestions_change,
      step.thoughts_change,
    )

-- the sender has taken all that was in the channel
abbrev pub taken : {P : Type 0} → Reader P → Reader P
taken r = record r { screen_queue = [] }

module _ {P : Type 0} (vt : Vt100 P) where
  -- a set of screens that all show one update, and that what the agent writes does not leave
  pub record IsSteady (Shows : P → Type 0) (u : ScreenUpdate) : Type 0 where
    pub shown : (p : P) → Shows p → seen vt p ≡ u
    pub processed : (bytes : List ℕ) (p : P) → Shows p → Shows (vt.process bytes p)
    pub resized : (rows cols : ℕ) (p : P) → Shows p → Shows (vt.set_size rows cols p)

  module _ (Shows : P → Type 0) (u : ScreenUpdate) (steady : IsSteady Shows u) where
    -- the reader has seen the update, and its screen still shows it
    IsKnown : List ScreenUpdate → Reader P → Type 0
    IsKnown queue r = Shows r.parser × (r.last_update ≡ u) × (r.screen_queue ≡ queue)

    check_screen-IsKnown :
        (queue : List ScreenUpdate) (now : ℕ) (r : Reader P)
        → IsKnown queue r
        → IsKnown queue (check_screen vt now r)
    unfolding check_screen IsKnown
    check_screen-IsKnown queue now r h =
        let unchanged : changed (seen vt r.parser) r.last_update ≡ false =
          ap (λ v. changed v r.last_update) (steady.shown r.parser h.0)
          ∙ ap (changed u) h.1
          ∙ changed_same u in
        both_branches (IsKnown queue) (leb 100 (now - r.last_check))
          (subst (IsKnown queue) (sym (if_false _ _ unchanged)) h) h

    fit_parser-IsKnown :
        (queue : List ScreenUpdate) (size : ℕ × ℕ) (r : Reader P)
        → IsKnown queue r
        → IsKnown queue (fit_parser vt size r)
    unfolding fit_parser IsKnown
    fit_parser-IsKnown queue (cols, rows) r h =
        both_branches (IsKnown queue) (same_size vt (cols, rows) r.last_parser_size) h
          (steady.resized rows cols r.parser h.0, h.1, h.2)

    reader_round-IsKnown :
        (queue : List ScreenUpdate) (headless : Bool) (round : Round) (r : Reader P)
        → IsKnown queue r
        → IsKnown queue (reader_round vt headless round r)
    unfolding reader_round IsKnown
    reader_round-IsKnown queue headless round r h = elim (Option-cases round.bytes) [
      | inl ended ↦ rw (ended, reader_round) h
      | inr (bytes, more) ↦
          let r₁ = record r { terminal_queue = try_send 64 bytes r.terminal_queue } in
          let fits = fit_parser-IsKnown queue round.term_size r₁ h in
          rw (more, reader_round)
            (both_branches (IsKnown queue) (not headless && not round.is_written) h (
              check_screen-IsKnown queue round.now
                (feed vt bytes (fit_parser vt round.term_size r₁))
                (steady.processed bytes _ fits.0, fits.1, fits.2)))
    ]

    run_reader-IsKnown :
        (queue : List ScreenUpdate) (headless : Bool) (rounds : List Round) (r : Reader P)
        → IsKnown queue r
        → IsKnown queue (run_reader vt headless rounds r)
    unfolding run_reader
    run_reader-IsKnown queue headless [] r h = h
    run_reader-IsKnown queue headless (round ∷ rounds) r h =
        run_reader-IsKnown queue headless rounds _ (
          both_branches (IsKnown queue) r.running (reader_round-IsKnown queue headless round r h) h)

    -- An update that the reader finds while its channel is full is dropped for good: the channel
    -- stays as it was, and even if the sender then takes all that is in it, nothing is put into it
    -- for as long as the screen shows that update.
    pub full_channel_loses_update :
        (now : ℕ) (headless : Bool) (rounds : List Round) (r : Reader P)
        → Shows r.parser
        → changed u r.last_update ≡ true
        → 100 ≤ now - r.last_check
        → 4 ≤ length r.screen_queue
        → ((check_screen vt now r).screen_queue ≡ r.screen_queue)
          × ((run_reader vt headless rounds (taken (check_screen vt now r))).screen_queue ≡ [])
    unfolding check_screen IsKnown
    full_channel_loses_update now headless rounds r shows new due full =
        let is_new : changed (seen vt r.parser) r.last_update ≡ true =
          ap (λ v. changed v r.last_update) (steady.shown r.parser shows) ∙ new in
        let no_room : ltb (length r.screen_queue) 4 ≡ false = ground arith in
        let is_due : leb 100 (now - r.last_check) ≡ true = ground arith in
        let found : check_screen vt now r
            ≡ record r { last_check = now; last_update = seen vt r.parser } =
          if_true _ _ is_due
          ∙ if_true _ _ is_new
          ∙ ap
              (λ q. record r { last_check = now; last_update = seen vt r.parser; screen_queue = q })
              (if_false _ _ no_room) in
        (
          ap (λ r'. r'.screen_queue) found,
          (run_reader-IsKnown [] headless rounds (taken (check_screen vt now r)) (
              subst (λ r'. IsKnown [] (taken r')) (sym found)
                (shows, steady.shown r.parser shows, refl))).2,
        )
