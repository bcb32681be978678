-- ===== src/CodeMode/Tracker/Tests.antt =====
-- The tracker on a batch of two events (src/code_mode/service.rs).
use rust_claw_oc.Prelude.{◌≡◌, ◌↔◌, refl, ℕ, ◌+◌, true, none, some, List, [], ◌∷◌, arith}
use rust_claw_oc.CodeMode.Protocol.{RuntimeEvent, text, flush}
use rust_claw_oc.CodeMode.Tracker.{
  PublicationTracker, has_unpublished_progress, should_auto_flush_now, next_idle_timeout,
}
use rust_claw_oc.CodeMode.Tracker.Flushing.{next_idle_timeout_due}

abbrev behind : PublicationTracker
behind = record {
  auto_flush_interval = some 100;
  last_published_at = 1000;
  last_published_progress_seq = 3;
  latest_progress_seq = 5;
}

abbrev left : ℕ
left = 70

next_idle_timeout_due_example :
    (should_auto_flush_now behind (1030 + 70) ≡ true)
    × (should_auto_flush_now behind 1030 ≡ true ↔ left ≡ 0)
unfolding next_idle_timeout has_unpublished_progress
next_idle_timeout_due_example = next_idle_timeout_due behind 1030 70 (omega arith) refl

abbrev batch : List (RuntimeEvent ℕ)
batch = text 4 "a" ∷ flush 5 none ∷ []
