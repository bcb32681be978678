-- ===== src/CodeMode/Driver/Tests.antt =====
-- Runs of the driver's loop on small schedules (src/code_mode/driver.rs).
use rust_claw_oc.Prelude.{◌≡◌, refl, ℕ, Bool, true, false, some, List, [], ◌∷◌, ◌++◌, map, ok}
use rust_claw_oc.CodeMode.Protocol.{RuntimeEvent, text, flush}
use rust_claw_oc.CodeMode.Driver.{
  Arrival, received, timer_fired, CellStatus, progress, idle, ready, gather, next_update,
  classify_event,
}
use rust_claw_oc.CodeMode.Driver.Delivery.{events_of, next_update-conserves, next_update-idle_drops}

abbrev said : RuntimeEvent ℕ
said = text 1 "hello"

abbrev flushed : RuntimeEvent ℕ
flushed = flush 2 (some 7)

abbrev arrivals : List (Arrival ℕ)
arrivals = received said ∷ received flushed ∷ received (text 3 "later") ∷ []

progress_idle : CellStatus ℕ → Bool
progress_idle idle = false
progress_idle _ = true

next_update-conserves_example : events_of arrivals ≡ said ∷ flushed ∷ text 3 "later" ∷ []
unfolding next_update gather classify_event
next_update-conserves_example =
    next_update-conserves false (some 100) arrivals (received (text 3 "later") ∷ [])
      (record { events = said ∷ flushed ∷ []; status = progress }) refl (λ e. cc)

next_update-idle_drops_example :
    next_update false (some 50) (map received (said ∷ []) ++ timer_fired ∷ [])
    ≡ ready (ok (record { events = []; status = idle })) []
next_update-idle_drops_example = next_update-idle_drops false 50 (said ∷ []) [] (tt, tt)
