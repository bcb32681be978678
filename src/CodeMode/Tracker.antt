-- ===== src/CodeMode/Tracker.antt =====
-- `PublicationTracker` of src/code_mode/service.rs: when a running cell's output is published.
-- Instants are milliseconds of the monotonic clock, given by the caller.
pub mod Flushing
mod Tests
use rust_claw_oc.Prelude.{
  ℕ, ◌+◌, ◌-◌, max, Bool, true, false, ◌&&◌, Option, none, some, List, [], ◌∷◌, ltb, leb,
  if◌then◌else◌,
}
use rust_claw_oc.CodeMode.Protocol.{RuntimeEvent, text, notification, flush}

pub record PublicationTracker : Type 0 where
  pub auto_flush_interval : Option ℕ
  pub last_published_at : ℕ
  pub last_published_progress_seq : ℕ
  pub latest_progress_seq : ℕ

unfoldable pub new_tracker : Option ℕ → ℕ → PublicationTracker
new_tracker auto_flush_ms now = record {
  auto_flush_interval = auto_flush_ms;
  last_published_at = now;
  last_published_progress_seq = 0;
  latest_progress_seq = 0;
}

unfoldable pub has_unpublished_progress : PublicationTracker → Bool
has_unpublished_progress t = ltb t.last_published_progress_seq t.latest_progress_seq

-- `Instant::elapsed` is 0 for an instant that has not come.
abbrev elapsed : PublicationTracker → ℕ → ℕ
elapsed t now = now - t.last_published_at

unfoldable pub should_auto_flush_now : PublicationTracker → ℕ → Bool
unfolding has_unpublished_progress
should_auto_flush_now t now = elim t.auto_flush_interval [
  | none ↦ false
  | some interval ↦ has_unpublished_progress t && leb interval (elapsed t now)
]

unfoldable pub next_idle_timeout : PublicationTracker → ℕ → Option ℕ
unfolding has_unpublished_progress
next_idle_timeout t now = elim t.auto_flush_interval [
  | none ↦ none
  | some interval ↦ if has_unpublished_progress t then some (interval - elapsed t now) else none
]

unfoldable pub mark_published : PublicationTracker → ℕ → PublicationTracker
mark_published t now = record t {
  last_published_at = now;
  last_published_progress_seq = t.latest_progress_seq;
}

abbrev pub observe_seq : PublicationTracker → ℕ → PublicationTracker
observe_seq t seq = record t { latest_progress_seq = max t.latest_progress_seq seq }

module _ {V : Type 0} where
  -- The value of the last explicit flush of a batch, if there was one, comes back.
  observe_from :
      PublicationTracker
      → Option (Option V)
      → List (RuntimeEvent V)
      → PublicationTracker × Option (Option V)
  observe_from t found [] = (t, found)
  observe_from t found (text seq s ∷ es) = observe_from (observe_seq t seq) found es
  observe_from t found (notification seq s ∷ es) = observe_from (observe_seq t seq) found es
  observe_from t found (flush seq value ∷ es) = observe_from (observe_seq t seq) (some value) es
  observe_from t found (_ ∷ es) = observe_from t found es

  unfoldable pub observe_events :
      PublicationTracker → List (RuntimeEvent V) → PublicationTracker × Option (Option V)
  unfolding observe_from
  observe_events t es = observe_from t none es
