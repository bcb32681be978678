-- ===== src/CodeMode/Service/Steps/Superseded.antt =====
-- Names of cells are never used again, and a host whose cell is gone changes nothing
-- (src/code_mode/service.rs).
use mathlib.Core.Path.{subst}
use text.Mathlib.TextLemmas.{append_cancel_left}
use rust_claw_oc.Prelude.{
  ℕ, ◌+◌, ◌<◌, ◌≡◌, ◌≢◌, sym, ap, ◌∙◌, inl, inr, String, Option, none, some, Option-cases, List, [],
  ◌∷◌, str_eq, eq_iff, ok, err, arith, Bool-cases, unwrap_or, Result-cases,
}
use rust_claw_oc.Prelude.Decimal.{show, show-injective}
use rust_claw_oc.Prelude.Dict.{lookup, insert, lookup-insert, lookup-insert_self}
use rust_claw_oc.Tools.Protocol.{ToolError}
use rust_claw_oc.CodeMode.Response.{ExecRunResult}
use rust_claw_oc.CodeMode.Driver.{DriverUpdate}
use rust_claw_oc.CodeMode.Cell.{ActiveCellHandle}
use rust_claw_oc.CodeMode.Service.{
  Service, SessionState, cell_name, empty_session, clear_cell, begin_cell, start_cell,
  started_session, begin_after, on_active_cell, require_active_cell,
  record_driver_update_in_session, record_cell_cancellation_in_session, publish_summary_update,
  record_host_error_in_session, abort_active_cell, note_published, ok_value, record_update_with,
  set_cancelled, set_failure, set_publication,
}
use rust_claw_oc.CodeMode.Service.Steps.{ServiceStep, take_step, take_steps, initial_service}
use rust_claw_oc.CodeMode.Service.Steps.Change.{
  Edit, kept, cleared, Change, untouched, edited, began, take_step-Change, require_active_cell-ok,
}
use rust_claw_oc.CodeMode.Service.Steps.Sessions.{IsIssued, take_steps-IsValid}

cell_name-injective : (a b : ℕ) → cell_name a ≡ cell_name b → a ≡ b
cell_name-injective a b e = show-injective a b (append_cancel_left "cell-" (show a) (show b) e)

module _ {V : Type 0} where
  -- Session `id` exists, and `P` holds of it.
  abbrev Holds : (SessionState V → Type 0) → String → Service V → Type 0
  Holds P id w = (s : SessionState V) × (lookup id w.sessions ≡ some s) × P s

module _ {V : Type 0} (P : SessionState V → Type 0)
    (edit : (s t : SessionState V) → Edit s t → P s → P t)
    (start : (s t : SessionState V) (cell : ActiveCellHandle V)
      → t.active_cell ≡ some cell
      → cell.cell_id ≡ cell_name s.next_cell_seq
      → t.next_cell_seq ≡ s.next_cell_seq + 1
      → P s
      → P t) where
  insert-Holds :
      (w : Service V) (id j : String) (s t : SessionState V)
      → (P s → P t)
      → unwrap_or (lookup j w.sessions) empty_session ≡ s
      → Holds P id w
      → (x : SessionState V) × (lookup id (insert j t w.sessions) ≡ some x) × P x
  insert-Holds w id j s t keep found (x, l, px) = elim (Bool-cases (str_eq j id)) [
    | inr other ↦ (x, lookup-insert j id t w.sessions ∙ rw other l, px)
    | inl same ↦
        let j_id : j ≡ id = (eq_iff j id).0 same in
        let s_x : x ≡ s =
          ap (λ o. unwrap_or o empty_session) (sym l ∙ ap (λ k. lookup k w.sessions) (sym j_id))
          ∙ found in
        (t, lookup-insert j id t w.sessions ∙ rw same, keep (subst P s_x px))
  ]

  Change-Holds : (w u : Service V) (id : String) → Change w u → Holds P id w → Holds P id u
  Change-Holds w u id (untouched a b) (x, l, px) = (x, ap (lookup id) a ∙ l, px)
  Change-Holds w u id (edited j s t found e a b) h =
      let (x, l, px) =
        insert-Holds w id j s t (edit s t e) (ap (λ o. unwrap_or o empty_session) found) h in
      (x, ap (lookup id) a ∙ l, px)
  Change-Holds w u id (began j s t found free cell c name host seq a b) h =
      let (x, l, px) = insert-Holds w id j s t (start s t cell c name seq) found h in
      (x, ap (lookup id) a ∙ l, px)

  steps-Holds :
      (steps : List (ServiceStep V)) (w : Service V) (id : String)
      → Holds P id w
      → Holds P id (take_steps steps w)
  unfolding take_steps
  steps-Holds [] w id h = h
  steps-Holds (step ∷ steps) w id h =
      steps-Holds steps (take_step step w) id
        (Change-Holds w (take_step step w) id (take_step-Change step w) h)

module _ {V : Type 0} where
  -- The session has given out the name number `k`, and its cell, if any, has another name.
  abbrev LacksCell : Option (ActiveCellHandle V) → String → Type 0
  LacksCell none name = Unit
  LacksCell (some cell) name = cell.cell_id ≢ name

  record IsGone (k : ℕ) (s : SessionState V) : Type 0 where
    given : k < s.next_cell_seq
    lacks : LacksCell s.active_cell (cell_name k)

  Edit-IsGone : (k : ℕ) (s t : SessionState V) → Edit s t → IsGone k s → IsGone k t
  Edit-IsGone k s t (kept cell cell' a b name host seq) g = record {
    given = omega arith;
    lacks = rw b (λ e. (subst (λ o. LacksCell o (cell_name k)) a g.lacks) (sym name ∙ e));
  }
  Edit-IsGone k s t (cleared a host seq) g = record { given = omega arith; lacks = rw a tt }

  start-IsGone :
      (k : ℕ) (s t : SessionState V) (cell : ActiveCellHandle V)
      → t.active_cell ≡ some cell
      → cell.cell_id ≡ cell_name s.next_cell_seq
      → t.next_cell_seq ≡ s.next_cell_seq + 1
      → IsGone k s
      → IsGone k t
  start-IsGone k s t cell a name seq g = record {
    given = omega arith;
    lacks = rw a (λ e.
        let same : s.next_cell_seq ≡ k = cell_name-injective s.next_cell_seq k (sym name ∙ e) in
        let below = g.given in omega arith);
  }

  steps-IsGone :
      (k : ℕ) (steps : List (ServiceStep V)) (w : Service V) (id : String)
      → Holds (IsGone k) id w
      → Holds (IsGone k) id (take_steps steps w)
  steps-IsGone k steps w id h = steps-Holds (IsGone k) (Edit-IsGone k) (start-IsGone k) steps w id h

  require_active_cell-lacks :
      (s : SessionState V) (name : String)
      → LacksCell s.active_cell name
      → (e : ToolError) × (require_active_cell s name ≡ err e)
  require_active_cell-lacks s name h = elim (Result-cases (require_active_cell s name)) [
    | inl refused ↦ refused
    | inr (cell, found) ↦
        let (active, named) = require_active_cell-ok s name cell found in
        absurd (subst (λ o. LacksCell o name) active h named)
  ]

  on_active_cell-gone :
      {A : Type 0} (k : ℕ) (id : String)
      (f : SessionState V → ActiveCellHandle V → A × SessionState V) (w : Service V)
      → Holds (IsGone k) id w
      → (e : ToolError) × (on_active_cell id (cell_name k) f w ≡ (err e, w))
  unfolding on_active_cell
  on_active_cell-gone k id f w (s, found, g) =
      let (e, refused) = require_active_cell-lacks s (cell_name k) g.lacks in
      (e, rw (found, refused, on_active_cell))

  -- The steps of a host task, for a cell of that name.
  abbrev pub IsPowerless : String → String → Service V → Type 0
  IsPowerless id name w =
      ((u : DriverUpdate V) → (record_driver_update_in_session id name u w).1 ≡ w)
      × ((reason : String) → (record_cell_cancellation_in_session id name reason w).1 ≡ w)
      × ((host : ℕ) (r : ExecRunResult V) → (publish_summary_update id name host r w).1 ≡ w)
      × ((e : ToolError) → record_host_error_in_session id name e w ≡ (none, w))

  IsPowerless-IsGone :
      (k : ℕ) (id : String) (w : Service V) → Holds (IsGone k) id w → IsPowerless id (cell_name k) w
  IsPowerless-IsGone k id w h = (
    λ u.
        unfold record_driver_update_in_session in
        ap (λ p. p.1) (on_active_cell-gone k id (record_update_with u) w h).1,
    λ reason.
        unfold record_cell_cancellation_in_session in
        ap (λ p. p.1) (on_active_cell-gone k id (set_cancelled reason) w h).1,
    λ host r.
        unfold publish_summary_update note_published in
        ap (λ p. (note_published host p.0 p.1).1)
          (on_active_cell-gone k id (set_publication r) w h).1,
    λ e.
        unfold record_host_error_in_session in
        ap (λ p. (ok_value p.0, p.1)) (on_active_cell-gone k id (set_failure e) w h).1,
  )

  abort-IsGone :
      (k : ℕ) (id reason : String) (w : Service V) (s : SessionState V)
      → lookup id w.sessions ≡ some s
      → k < s.next_cell_seq
      → Holds (IsGone k) id (abort_active_cell id reason w).1
  unfolding abort_active_cell
  abort-IsGone k id reason w s found given = elim (Option-cases s.host_handle) [
    | inl e ↦
        rw (found, e, abort_active_cell)
          (
            clear_cell s,
            lookup-insert_self id (clear_cell s) w.sessions,
            record { given = given; lacks = tt },
          )
    | inr (host, e) ↦
        rw (found, e, abort_active_cell)
          (
            clear_cell s,
            lookup-insert_self id (clear_cell s) w.sessions,
            record { given = given; lacks = tt },
          )
  ]

  -- Once a session's cell is aborted, its host is powerless for good: whatever steps any callers
  -- and hosts take afterwards, an update, a cancellation, a publication or an error that it then
  -- reports for its cell leaves the service as it is.
  pub abort_active_cell-IsPowerless :
      (before after : List (ServiceStep V)) (id reason : String) (s : SessionState V)
      (cell : ActiveCellHandle V)
      → lookup id (take_steps before (initial_service V)).sessions ≡ some s
      → s.active_cell ≡ some cell
      → IsPowerless id cell.cell_id
          (take_steps after (abort_active_cell id reason (take_steps before (initial_service V))).1)
  abort_active_cell-IsPowerless before after id reason s cell found active =
      let w = take_steps before (initial_service V) in
      let v = (take_steps-IsValid before).each id s found in
      let (k, name, given) = subst (IsIssued s.next_cell_seq) active v.issued in
      let u = (abort_active_cell id reason w).1 in
      rw name (
        IsPowerless-IsGone k id (take_steps after u)
          (steps-IsGone k after u id (abort-IsGone k id reason w s found given)))

  begin_after-ok :
      (o : Option (ActiveCellHandle V)) (started : (String × ℕ) × Service V) (w : Service V)
      (p : String × ℕ) (u : Service V)
      → begin_after o started w ≡ (ok p, u)
      → (started.0 ≡ p) × (started.1 ≡ u)
  unfolding begin_after
  begin_after-ok none started w p u h = ground arith
  begin_after-ok (some cell) started w p u h = ground arith

  abbrev HasGiven : ℕ → SessionState V → Type 0
  HasGiven k s = k < s.next_cell_seq

  Edit-HasGiven : (k : ℕ) (s t : SessionState V) → Edit s t → HasGiven k s → HasGiven k t
  Edit-HasGiven k s t (kept cell cell' a b name host seq) g = omega arith
  Edit-HasGiven k s t (cleared a host seq) g = omega arith

  begin_cell-ok :
      (id : String) (notice : Option String) (w u : Service V) (name : String) (host : ℕ)
      → begin_cell id notice w ≡ (ok (name, host), u)
      → (name ≡ cell_name (unwrap_or (lookup id w.sessions) empty_session).next_cell_seq)
        × Holds (HasGiven (unwrap_or (lookup id w.sessions) empty_session).next_cell_seq) id u
  unfolding begin_cell start_cell
  begin_cell-ok id notice w u name host h =
      let s = unwrap_or (lookup id w.sessions) empty_session in
      let (named, made) =
        begin_after-ok s.active_cell (start_cell id notice s w) w (name, host) u h in
      (
        sym (ap (λ (p : String × ℕ). p.0) named),
        (
          started_session notice w.next_host s,
          ap (λ (v : Service V). lookup id v.sessions) (sym made)
              ∙ lookup-insert_self id (started_session notice w.next_host s) w.sessions,
          omega arith,
        ),
      )

  -- A session never gives out a name twice: two cells that it starts, with any steps between, have
  -- different names.
  pub begin_cell-fresh :
      (w u u' : Service V) (between : List (ServiceStep V)) (id : String)
      (notice notice' : Option String) (name name' : String) (host host' : ℕ)
      → begin_cell id notice w ≡ (ok (name, host), u)
      → begin_cell id notice' (take_steps between u) ≡ (ok (name', host'), u')
      → name ≢ name'
  begin_cell-fresh w u u' between id notice notice' name name' host host' first second same =
      let k = (unwrap_or (lookup id w.sessions) empty_session).next_cell_seq in
      let (named, given) = begin_cell-ok id notice w u name host first in
      let (s, found, below) =
        steps-Holds (HasGiven k) (λ x t e g. Edit-HasGiven k x t e g)
          (λ x t cell a n q g. omega arith) between u id given in
      let (named', _) = begin_cell-ok id notice' (take_steps between u) u' name' host' second in
      let equal : k ≡ s.next_cell_seq = cell_name-injective k s.next_cell_seq (
        sym named
        ∙ same
        ∙ named'
        ∙ ap (λ o. cell_name (unwrap_or o empty_session).next_cell_seq) found) in
      omega arith
