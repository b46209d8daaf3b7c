-- ===== src/State/View/Unordered.antt =====
-- The list that clients are shown does not depend on the order in which the sessions are iterated.
use Prim.Native.Nat.{Ordering}
use Prim.Native.String.{compare}
use Prim.Native.String.compare
use agent_dash.Prelude.{
  String, Bool, ◌≡◌, refl, ◌∙◌, sym, ap, true, false, List, [], ◌∷◌, arith, Bool-cases, inl, inr,
  map, filter, length, ◌==◌, eq_iff, if◌then◌else◌, All, ◌||◌, find, Option, some, map_option,
}
use agent_dash.Table.{Table, values}
use agent_dash.Table.Reordered.{Reordered, same, swap, cons, trans, lookup-Reordered}
use agent_dash.Session.{DashSession}
use agent_dash.State.{DaemonState, InternalSession, PendingPermission}
use agent_dash.State.View.{
  session_cmp, not_after, place, sort_sessions, build_dash_sessions, dash_session, shown,
  input_reason, concerns, question_reason, permission_reason,
}
use agent_dash.State.View.Counts.{children}
use agent_dash.State.View.Listing.{entry, map-entry}
use agent_dash.State.View.Order.{session_cmp-swap, swap as swap_order}

-- nothing comes before the empty text
nothing_before : (s : String) → compare s String.[] ≡ Ordering.lt → ⊥
nothing_before String.[] e = ground (arith, e)
nothing_before (String.◌∷◌ c s) e = ground (arith, sym (compare.cons-nil c s) ∙ e)

-- The order of texts is transitive.
compare-lt_trans :
    (s t u : String)
    → compare s t ≡ Ordering.lt
    → compare t u ≡ Ordering.lt
    → compare s u ≡ Ordering.lt
compare-lt_trans s t String.[] e f = absurd (nothing_before t f)
compare-lt_trans s String.[] (String.◌∷◌ x u) e f = absurd (nothing_before s e)
compare-lt_trans String.[] (String.◌∷◌ d t) (String.◌∷◌ x u) e f = compare.nil-cons x u
compare-lt_trans (String.◌∷◌ c s) (String.◌∷◌ d t) (String.◌∷◌ x u) e f =
    compare.cons-cons c x s u
    ∙ ground (
      arith,
      sym (compare.cons-cons c d s t) ∙ e,
      sym (compare.cons-cons d x t u) ∙ f,
      compare-lt_trans s t u,
    )

-- If a comes before b, and b is not after c, then a comes before c.
session_cmp_trans :
    (a b c : DashSession)
    → session_cmp a b ≡ Ordering.lt
    → not_after b c ≡ true
    → session_cmp a c ≡ Ordering.lt
unfolding session_cmp
session_cmp_trans a b c e h = ground (
  arith,
  compare-lt_trans a.status b.status c.status,
  compare-lt_trans a.session_id b.session_id c.session_id,
  eq_iff a.status b.status,
  eq_iff b.status c.status,
  eq_iff a.session_id b.session_id,
  eq_iff b.session_id c.session_id,
  eq_iff a.status c.status,
  eq_iff a.session_id c.session_id,
)

place-lt :
    (a b : DashSession) (cs : List DashSession)
    → session_cmp a b ≡ Ordering.lt
    → place a (place b cs) ≡ place b (place a cs)
unfolding place
place-lt a b [] e = ground (arith, e, session_cmp-swap b a)
place-lt a b (c ∷ cs) e =
    ground (arith, e, session_cmp-swap b a, session_cmp_trans a b c e, place-lt a b cs e)

session_cmp-eq :
    (a b : DashSession) → session_cmp a b ≡ Ordering.eq → (a.session_id == b.session_id) ≡ true
unfolding session_cmp
session_cmp-eq a b e = ground (arith, e)

-- Two sessions with different ids may be placed in either order.
place-place :
    (a b : DashSession) (cs : List DashSession)
    → (a.session_id == b.session_id) ≡ false
    → place a (place b cs) ≡ place b (place a cs)
place-place a b cs h = by_order (session_cmp a b) refl
  where
    by_order : (o : Ordering) → session_cmp a b ≡ o → place a (place b cs) ≡ place b (place a cs)
    by_order Ordering.lt e = place-lt a b cs e
    by_order Ordering.eq e = absurd (ground (arith, session_cmp-eq a b e, h))
    by_order Ordering.gt e = sym (place-lt b a cs (session_cmp-swap b a ∙ ap swap_order e))

-- Every session stands under its own id.
abbrev pub OwnIds : Table InternalSession → Type 0
OwnIds = All λ e. e.1.session_id ≡ e.0

OwnIds-Reordered : {m m' : Table InternalSession} → Reordered m m' → OwnIds m → OwnIds m'
OwnIds-Reordered (same m) h = h
OwnIds-Reordered (swap a b m d) (ha, (hb, h)) = (hb, (ha, h))
OwnIds-Reordered (cons a r) (ha, h) = (ha, OwnIds-Reordered r h)
OwnIds-Reordered (trans r s) h = OwnIds-Reordered s (OwnIds-Reordered r h)

module _ (f : InternalSession → DashSession)
    (keeps : (s : InternalSession) → (f s).session_id ≡ s.session_id)
    (p : InternalSession → Bool) where
  abbrev listed : Table InternalSession → List DashSession
  listed m = sort_sessions (map f (filter p (values m)))

  listed-swap :
      (a b : String × InternalSession) (m : Table InternalSession)
      → (a.0 == b.0) ≡ false
      → a.1.session_id ≡ a.0
      → b.1.session_id ≡ b.0
      → listed (a ∷ b ∷ m) ≡ listed (b ∷ a ∷ m)
  unfolding sort_sessions
  listed-swap a b m d ha hb = elim (Bool-cases (p a.1)) [
    | inl pa ↦ elim (Bool-cases (p b.1)) [
      | inl pb ↦
          rw (pa, pb) (place-place (f a.1) (f b.1) (listed m) (rw (keeps a.1, keeps b.1, ha, hb) d))
      | inr pb ↦ rw (pa, pb) refl
    ]
    | inr pa ↦ rw pa refl
  ]

  listed-Reordered :
      {m m' : Table InternalSession} → Reordered m m' → OwnIds m → listed m ≡ listed m'
  unfolding sort_sessions
  listed-Reordered (same m) h = refl
  listed-Reordered (swap a b m d) (ha, (hb, h)) = listed-swap a b m d ha hb
  listed-Reordered (cons a r) (ha, h) = elim (Bool-cases (p a.1)) [
    | inl pa ↦ rw pa (ap (place (f a.1)) (listed-Reordered r h))
    | inr pa ↦ rw pa (listed-Reordered r h)
  ]
  listed-Reordered (trans r s) h = listed-Reordered r h ∙ listed-Reordered s (OwnIds-Reordered r h)

length-children :
    (id : String) {m m' : Table InternalSession}
    → Reordered m m'
    → length (children id (values m)) ≡ length (children id (values m'))
length-children id (same m) = refl
length-children id (swap a b m d) = ground arith
length-children id (cons a r) = ground (arith, length-children id r)
length-children id (trans r s) = length-children id r ∙ length-children id s

find-same :
    {A : Type 0} (p q : A → Bool) (xs : List A) → ((a : A) → p a ≡ q a) → find p xs ≡ find q xs
find-same p q [] h = refl
find-same p q (x ∷ xs) h = ground (arith, h x, find-same p q xs h)

map-same : {A B : Type 0} (f g : A → B) (xs : List A) → ((a : A) → f a ≡ g a) → map f xs ≡ map g xs
map-same f g [] h = refl
map-same f g (x ∷ xs) h = cc (h x, map-same f g xs h)

module _ {V : Type 0} (st : DaemonState V) where
  abbrev pub with_sessions : Table InternalSession → DaemonState V
  with_sessions m = record st { sessions = m }

  entry-Reordered :
      {m m' : Table InternalSession} (s : InternalSession)
      → Reordered m m'
      → entry (with_sessions m) s ≡ entry (with_sessions m') s
  unfolding dash_session input_reason
  entry-Reordered {m} {m'} s r =
      let found =
        find-same (concerns (with_sessions m) s.session_id)
          (concerns (with_sessions m') s.session_id) (values st.pending_permissions)
          (λ p. rw (lookup-Reordered p.session_id r) refl) in
      let reason : input_reason (with_sessions m) s ≡ input_reason (with_sessions m') s =
        ap
          (λ (o : Option (PendingPermission V)).
            if s.has_pending_question
            then some (question_reason s.question_text)
            else map_option permission_reason o)
          found in
      let counted = length-children s.session_id r in
      λ i. record (entry (with_sessions m) s) {
        input_reason = reason i;
        subagent_count = counted i;
      }

  -- Two states whose session tables differ in the order of their entries alone, and in which every
  -- session stands under its own id, are listed alike.
  pub build_dash_sessions-Reordered :
      (include_subagents : Bool) {m m' : Table InternalSession}
      → Reordered m m'
      → OwnIds m
      → build_dash_sessions include_subagents (with_sessions m)
        ≡ build_dash_sessions include_subagents (with_sessions m')
  unfolding build_dash_sessions dash_session
  build_dash_sessions-Reordered include_subagents {m} {m'} r own =
      ap sort_sessions (map-entry (with_sessions m) (shown include_subagents (with_sessions m)))
      ∙ listed-Reordered (entry (with_sessions m)) (λ s. refl) (λ s. include_subagents || s.is_main)
          r own
      ∙ ap sort_sessions (
          map-same (entry (with_sessions m)) (entry (with_sessions m'))
            (shown include_subagents (with_sessions m')) (λ s. entry-Reordered s r)
          ∙ sym (map-entry (with_sessions m') (shown include_subagents (with_sessions m'))))
