-- ===== src/CodeMode/Service/Steps/Sessions.antt =====
-- What holds of every session between two steps (src/code_mode/service.rs).
use mathlib.Core.Path.{subst}
use mathlib.Core.Option.{some-injective}
use rust_claw_oc.Prelude.{
  ℕ, suc, ◌+◌, ◌<◌, ◌≡◌, refl, sym, ap, ◌∙◌, inl, inr, true, false, String, Option, none, some,
  is_some, List, [], ◌∷◌, str_eq, ok, arith, Bool-cases, unwrap_or,
}
use rust_claw_oc.Prelude.Dict.{lookup, insert, lookup-insert}
use rust_claw_oc.CodeMode.Cell.{ActiveCellHandle, is_terminal}
use rust_claw_oc.CodeMode.Service.{Service, SessionState, cell_name, empty_session}
use rust_claw_oc.CodeMode.Service.Wait.{wait_start, wait_on_cell, is_requested, watch_host, watch}
use rust_claw_oc.CodeMode.Service.Steps.{ServiceStep, take_step, take_steps, initial_service}
use rust_claw_oc.CodeMode.Service.Steps.Change.{
  Edit, kept, cleared, Change, untouched, edited, began, take_step-Change,
}

-- The cell has a name that its session gave out.
abbrev pub IsIssued : {V : Type 0} → ℕ → Option (ActiveCellHandle V) → Type 0
IsIssued seq none = Unit
IsIssued seq (some cell) = (k : ℕ) × (cell.cell_id ≡ cell_name k) × (k < seq)

abbrev pub IsHostBelow : ℕ → Option ℕ → Type 0
IsHostBelow bound none = Unit
IsHostBelow bound (some host) = host < bound

pub record SessionIsValid {V : Type 0} (next_host : ℕ) (s : SessionState V) : Type 0 where
  pub hosted : is_some s.active_cell ≡ is_some s.host_handle
  pub issued : IsIssued s.next_cell_seq s.active_cell
  pub host_below : IsHostBelow next_host s.host_handle

pub record IsValid {V : Type 0} (w : Service V) : Type 0 where
  pub each :
      (id : String) (s : SessionState V)
      → lookup id w.sessions ≡ some s
      → SessionIsValid w.next_host s

module _ {V : Type 0} where
  Edit-SessionIsValid :
      (n : ℕ) (s t : SessionState V) → Edit s t → SessionIsValid n s → SessionIsValid n t
  Edit-SessionIsValid n s t (kept cell cell' a b name host seq) v = ground arith
  Edit-SessionIsValid n s t (cleared a host seq) v = ground arith

  SessionIsValid-suc : (n : ℕ) (s : SessionState V) → SessionIsValid n s → SessionIsValid (suc n) s
  SessionIsValid-suc n s v = ground arith

  began-SessionIsValid :
      (n : ℕ) (s t : SessionState V) (cell : ActiveCellHandle V)
      → t.active_cell ≡ some cell
      → cell.cell_id ≡ cell_name s.next_cell_seq
      → t.host_handle ≡ some n
      → t.next_cell_seq ≡ s.next_cell_seq + 1
      → SessionIsValid (suc n) t
  began-SessionIsValid n s t cell a name host seq = record {
    hosted = rw (a, host);
    issued = rw a (s.next_cell_seq, name, omega arith);
    host_below = rw host (omega arith);
  }

  -- A service with one session written anew.
  insert-each :
      (P : SessionState V → Type 0) (w : Service V) (id : String) (t : SessionState V)
      → P t
      → ((j : String) (s : SessionState V) → lookup j w.sessions ≡ some s → P s)
      → (j : String) (s : SessionState V) → lookup j (insert id t w.sessions) ≡ some s
      → P s
  insert-each P w id t pt h j s l = elim (Bool-cases (str_eq id j)) [
    | inl same ↦
        subst P (some-injective t s (rw same at (sym (lookup-insert id j t w.sessions) ∙ l))) pt
    | inr other ↦ h j s (rw other at (sym (lookup-insert id j t w.sessions) ∙ l))
  ]

  -- A session that a step starts from: one of the service's, or an empty one.
  SessionIsValid-unwrap :
      (n : ℕ) (o : Option (SessionState V))
      → ((s : SessionState V) → o ≡ some s → SessionIsValid n s)
      → SessionIsValid n (unwrap_or o empty_session)
  SessionIsValid-unwrap n none h = record { hosted = refl; issued = tt; host_below = tt }
  SessionIsValid-unwrap n (some s) h = h s refl

  each_of :
      (w u : Service V)
      → u.sessions ≡ w.sessions
      → (P : SessionState V → Type 0)
      → ((j : String) (s : SessionState V) → lookup j w.sessions ≡ some s → P s)
      → (j : String) (s : SessionState V) → lookup j u.sessions ≡ some s
      → P s
  each_of w u e P h j s l = h j s (ap (lookup j) (sym e) ∙ l)

  Change-IsValid : (w u : Service V) → Change w u → IsValid w → IsValid u
  Change-IsValid w u (untouched a b) v = record {
    each = λ j s l. subst (λ n. SessionIsValid n s) (sym b) (each_of w u a _ v.each j s l);
  }
  Change-IsValid w u (edited id s t found e a b) v = record {
    each = λ j x l.
        subst (λ n. SessionIsValid n x) (sym b)
          (insert-each (SessionIsValid w.next_host) w id t
            (Edit-SessionIsValid w.next_host s t e (v.each id s found)) v.each j x
            (ap (lookup j) (sym a) ∙ l));
  }
  Change-IsValid w u (began id s t found free cell c name host seq a b) v = record {
    each = λ j x l.
        subst (λ n. SessionIsValid n x) (sym b)
          (insert-each (SessionIsValid (suc w.next_host)) w id t
            (began-SessionIsValid w.next_host s t cell c name host seq)
            (λ i y m. SessionIsValid-suc w.next_host y (v.each i y m)) j x
            (ap (lookup j) (sym a) ∙ l));
  }

  pub take_steps-IsValid_from :
      (steps : List (ServiceStep V)) (w : Service V) → IsValid w → IsValid (take_steps steps w)
  unfolding take_steps
  take_steps-IsValid_from [] w v = v
  take_steps-IsValid_from (step ∷ steps) w v =
      take_steps-IsValid_from steps (take_step step w)
        (Change-IsValid w (take_step step w) (take_step-Change step w) v)

  IsValid-initial_service : IsValid (initial_service V)
  unfolding initial_service lookup
  IsValid-initial_service = record { each = λ j s l. cc }

  -- After any sequence of steps, by any callers and hosts, every session has a host exactly when
  -- it has a cell, the cell's name is one that the session gave out, and the host is in the table.
  pub take_steps-IsValid :
      (steps : List (ServiceStep V)) → IsValid (take_steps steps (initial_service V))
  take_steps-IsValid steps =
      take_steps-IsValid_from steps (initial_service V) IsValid-initial_service

  watch_host-some :
      (o : Option ℕ) (cell : ActiveCellHandle V) (w : Service V)
      → true ≡ is_some o
      → (host : ℕ) × (o ≡ some host)
        × (watch_host o cell w ≡ (ok (watch cell.cell_id host (w.hosts host).revision), w))
  unfolding watch_host
  watch_host-some none cell w h = cc
  watch_host-some (some host) cell w h = (host, refl, refl)

  wait_start-live :
      (w : Service V) (id : String) (requested : Option String) (s : SessionState V)
      (cell : ActiveCellHandle V)
      → lookup id w.sessions ≡ some s
      → s.active_cell ≡ some cell
      → is_terminal cell ≡ false
      → is_requested requested cell.cell_id ≡ true
      → wait_start id requested w ≡ watch_host s.host_handle cell w
  unfolding wait_start wait_on_cell
  wait_start-live w id requested s cell found active live asked =
      rw (found, active, asked, live, wait_start, wait_on_cell)

  -- To wait on the live cell of a session never fails, whatever happened before: if the request
  -- names no cell or this one, the service is unchanged, and the caller watches the session's host
  -- from its current revision on.
  pub wait_start-watch :
      (steps : List (ServiceStep V)) (id : String) (requested : Option String) (s : SessionState V)
      (cell : ActiveCellHandle V)
      → lookup id (take_steps steps (initial_service V)).sessions ≡ some s
      → s.active_cell ≡ some cell
      → is_terminal cell ≡ false
      → is_requested requested cell.cell_id ≡ true
      → (host : ℕ) × (s.host_handle ≡ some host)
        × (wait_start id requested (take_steps steps (initial_service V)) ≡ (
          ok (watch cell.cell_id host ((take_steps steps (initial_service V)).hosts host).revision),
          take_steps steps (initial_service V),
        ))
  wait_start-watch steps id requested s cell found active live asked =
      let w = take_steps steps (initial_service V) in
      let v = (take_steps-IsValid steps).each id s found in
      let (host, some_host, watched) =
        watch_host-some s.host_handle cell w (ap is_some (sym active) ∙ v.hosted) in
      (host, some_host, wait_start-live w id requested s cell found active live asked ∙ watched)
