-- ===== src/Watcher/Maps.antt =====
-- How the two maps of the watcher fit together.
use agent_dash.Prelude.{
  String, ◌≡◌, ◌≢◌, ◌∙◌, List, [], ◌∷◌, Bool, true, false, none, some, arith, ◌==◌, eq_iff, eq_refl,
  if◌then◌else◌, Option-cases, Bool-cases, inl, inr,
}
use agent_dash.Table.{lookup, contains_key, insert}
use agent_dash.Table.Laws.{lookup-insert, lookup-remove}
use agent_dash.Watcher.{SessionWatcher, new, watch, unwatch, is_watching, reported}

-- A change is only ever reported for a session that watches that very file.
pub record IsLinked (w : SessionWatcher) : Type 0 where
  pub linked :
      (path session : String)
      → reported path w ≡ some session
      → lookup session w.session_to_path ≡ some path

IsLinked-new : IsLinked new
unfolding new lookup
IsLinked-new = record { linked = λ path session e. cc }

IsLinked-unwatch :
    (session : String) (w : SessionWatcher) → IsLinked w → IsLinked (unwatch session w)
unfolding unwatch
IsLinked-unwatch session w h = elim (Option-cases (lookup session w.session_to_path)) [
  | inl absent ↦ rw (absent, unwatch) h
  | inr (path, there) ↦
      rw (there, unwatch)
        (record {
          linked = λ p s e. ground (
            arith,
            lookup-remove path p w.path_to_session,
            h.linked p s,
            lookup-remove session s w.session_to_path,
            eq_iff session s,
            eq_iff path p,
          );
        })
]

paths-unwatch :
    (session j : String) (w : SessionWatcher)
    → lookup j (unwatch session w).session_to_path
      ≡ (if session == j then none else lookup j w.session_to_path)
unfolding unwatch
paths-unwatch session j w = elim (Option-cases (lookup session w.session_to_path)) [
  | inl absent ↦ rw (absent, unwatch) (ground (arith, eq_iff session j))
  | inr (path, there) ↦ rw (there, unwatch) (lookup-remove session j w.session_to_path)
]

reported-unwatch :
    (session path : String) (w : SessionWatcher)
    → lookup session w.session_to_path ≡ some path
    → reported path (unwatch session w) ≡ none
unfolding unwatch
reported-unwatch session path w there =
    rw (there, unwatch) (lookup-remove path path w.path_to_session ∙ rw (eq_refl path))

-- the maps after the watch of before is taken back, where there was one
abbrev cleared : String → SessionWatcher → SessionWatcher
cleared session w = if contains_key session w.session_to_path then unwatch session w else w

paths-cleared :
    (session j : String) (w : SessionWatcher)
    → lookup j (cleared session w).session_to_path
      ≡ (if session == j then none else lookup j w.session_to_path)
paths-cleared session j w = elim (Option-cases (lookup session w.session_to_path)) [
  | inl absent ↦ rw absent (ground (arith, eq_iff session j))
  | inr (path, there) ↦ rw there (paths-unwatch session j w)
]

cleared_free :
    (session : String) (w : SessionWatcher)
    → lookup session (cleared session w).session_to_path ≡ none
cleared_free session w = paths-cleared session session w ∙ rw (eq_refl session)

IsLinked-cleared :
    (session : String) (w : SessionWatcher) → IsLinked w → IsLinked (cleared session w)
IsLinked-cleared session w h = elim (Bool-cases (contains_key session w.session_to_path)) [
  | inl watched ↦ rw watched (IsLinked-unwatch session w h)
  | inr free ↦ rw free h
]

link-IsLinked :
    (session path : String) (w : SessionWatcher)
    → lookup session w.session_to_path ≡ none
    → IsLinked w
    → IsLinked (record {
      session_to_path = insert session path w.session_to_path;
      path_to_session = insert path session w.path_to_session;
    })
link-IsLinked session path w free h = record {
  linked = λ p s e. ground (
    arith,
    lookup-insert path p session w.path_to_session,
    lookup-insert session s path w.session_to_path,
    h.linked p s,
    eq_iff session s,
    eq_iff path p,
  );
}

IsLinked-watch :
    (accepted : Bool) (session path : String) (w : SessionWatcher)
    → IsLinked w
    → IsLinked (watch accepted session path w)
unfolding watch
IsLinked-watch true session path w h =
    link-IsLinked session path (cleared session w) (cleared_free session w)
      (IsLinked-cleared session w h)
IsLinked-watch false session path w h = IsLinked-cleared session w h

pub data Call : Type 0 where
  watches : (accepted : Bool) (session path : String) → Call
  unwatches : (session : String) → Call

pub run : List Call → SessionWatcher → SessionWatcher
run [] w = w
run (watches accepted session path ∷ calls) w = run calls (watch accepted session path w)
run (unwatches session ∷ calls) w = run calls (unwatch session w)

run_from-IsLinked : (calls : List Call) (w : SessionWatcher) → IsLinked w → IsLinked (run calls w)
unfolding run
run_from-IsLinked [] w h = h
run_from-IsLinked (watches accepted session path ∷ calls) w h =
    run_from-IsLinked calls _ (IsLinked-watch accepted session path w h)
run_from-IsLinked (unwatches session ∷ calls) w h =
    run_from-IsLinked calls _ (IsLinked-unwatch session w h)

-- After any calls of `watch` and `unwatch` on a new watcher, a change of a file is only reported for
-- a session that watches that very file.
pub run-IsLinked : (calls : List Call) → IsLinked (run calls new)
run-IsLinked calls = run_from-IsLinked calls new IsLinked-new

reported-watch :
    (session path : String) (w : SessionWatcher)
    → reported path (watch true session path w) ≡ some session
unfolding watch
reported-watch session path w =
    lookup-insert path path session (cleared session w).path_to_session ∙ rw (eq_refl path)

paths-watch :
    (session j path : String) (w : SessionWatcher)
    → lookup j (watch true session path w).session_to_path
      ≡ (if session == j then some path else lookup j w.session_to_path)
unfolding watch
paths-watch session j path w = ground (
  arith,
  lookup-insert session j path (cleared session w).session_to_path,
  paths-cleared session j w,
)

-- Two sessions that watch one file: its changes are reported for the second only, and for neither
-- once the second stops, although the first still counts as watching.
pub watch_shared_path :
    (first second path : String) (w : SessionWatcher)
    → first ≢ second
    → (reported path (watch true second path (watch true first path w)) ≡ some second)
      × (reported path (unwatch second (watch true second path (watch true first path w))) ≡ none)
      × (is_watching first (unwatch second (watch true second path (watch true first path w)))
          ≡ true)
watch_shared_path first second path w ne =
    let w₁ : SessionWatcher = watch true first path w in
    let w₂ : SessionWatcher = watch true second path w₁ in
    (
      reported-watch second path w₁,
      reported-unwatch second path w₂ (paths-watch second second path w₁ ∙ rw (eq_refl second)),
      ground (
        arith,
        paths-unwatch second first w₂,
        paths-watch second first path w₁,
        paths-watch first first path w,
        eq_refl first,
        eq_iff second first,
      ),
    )
