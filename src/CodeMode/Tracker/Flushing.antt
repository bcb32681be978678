-- ===== src/CodeMode/Tracker/Flushing.antt =====
-- When the tracker publishes (src/code_mode/service.rs, `PublicationTracker`).
use rust_claw_oc.Prelude.{
  ◌≤◌, ◌∙◌, ℕ, ◌+◌, ◌≡◌, ◌↔◌, Bool, true, false, ◌||◌, Option, none, some, is_some, List, [], ◌∷◌,
  ltb, any, arith,
}
use rust_claw_oc.CodeMode.Protocol.{RuntimeEvent, text, notification, flush}
use rust_claw_oc.CodeMode.Tracker.{
  PublicationTracker, has_unpublished_progress, should_auto_flush_now, next_idle_timeout,
  mark_published, observe_seq, observe_from, observe_events,
}

-- At a time not before the last publication, to sleep for the idle timeout is enough: then the
-- automatic flush is due. It is due at once exactly when the timeout is 0.
pub next_idle_timeout_due :
    (t : PublicationTracker) (now d : ℕ)
    → t.last_published_at ≤ now
    → next_idle_timeout t now ≡ some d
    → (should_auto_flush_now t (now + d) ≡ true) × (should_auto_flush_now t now ≡ true ↔ d ≡ 0)
unfolding next_idle_timeout should_auto_flush_now has_unpublished_progress
next_idle_timeout_due t now d past h = ground arith

observe_seq-or :
    (t : PublicationTracker) (n : ℕ) (b : Bool)
    → has_unpublished_progress (observe_seq t n) || b
      ≡ has_unpublished_progress t || (ltb t.last_published_progress_seq n || b)
unfolding has_unpublished_progress
observe_seq-or t n b = ground arith

module _ {V : Type 0} where
  -- Does the event make progress past `seen`?
  abbrev pub is_progress_past : ℕ → RuntimeEvent V → Bool
  is_progress_past seen (text n s) = ltb seen n
  is_progress_past seen (notification n s) = ltb seen n
  is_progress_past seen (flush n v) = ltb seen n
  is_progress_past seen _ = false

  abbrev pub is_flush : RuntimeEvent V → Bool
  is_flush (flush n v) = true
  is_flush _ = false

  observe_from_progress :
      (t : PublicationTracker) (found : Option (Option V)) (es : List (RuntimeEvent V))
      → has_unpublished_progress (observe_from t found es).0
        ≡ has_unpublished_progress t || any (is_progress_past t.last_published_progress_seq) es
  unfolding observe_from
  observe_from_progress t found [] = ground arith
  observe_from_progress t found (text n s ∷ es) =
      observe_from_progress (observe_seq t n) found es
      ∙ observe_seq-or t n (any (is_progress_past t.last_published_progress_seq) es)
  observe_from_progress t found (notification n s ∷ es) =
      observe_from_progress (observe_seq t n) found es
      ∙ observe_seq-or t n (any (is_progress_past t.last_published_progress_seq) es)
  observe_from_progress t found (flush n v ∷ es) =
      observe_from_progress (observe_seq t n) (some v) es
      ∙ observe_seq-or t n (any (is_progress_past t.last_published_progress_seq) es)
  observe_from_progress t found (_ ∷ es) = observe_from_progress t found es

  observe_from_flush :
      (t : PublicationTracker) (found : Option (Option V)) (es : List (RuntimeEvent V))
      → is_some (observe_from t found es).1 ≡ is_some found || any is_flush es
  unfolding observe_from
  observe_from_flush t found [] = ground arith
  observe_from_flush t found (text n s ∷ es) = observe_from_flush (observe_seq t n) found es
  observe_from_flush t found (notification n s ∷ es) = observe_from_flush (observe_seq t n) found es
  observe_from_flush t found (flush n v ∷ es) =
      observe_from_flush (observe_seq t n) (some v) es ∙ ground arith
  observe_from_flush t found (_ ∷ es) = observe_from_flush t found es

  -- A batch leaves unpublished progress exactly if there was some before or one of its texts,
  -- notifications or flushes is newer than the last publication; it reports an explicit flush
  -- exactly if it holds one; and publishing afterwards leaves no unpublished progress.
  observe_events_progress :
      (t : PublicationTracker) (es : List (RuntimeEvent V)) (now : ℕ)
      → (has_unpublished_progress (observe_events t es).0
          ≡ has_unpublished_progress t || any (is_progress_past t.last_published_progress_seq) es)
        × (is_some (observe_events t es).1 ≡ any is_flush es)
        × (has_unpublished_progress (mark_published (observe_events t es).0 now) ≡ false)
  unfolding observe_events
  observe_events_progress t es now = (
    observe_from_progress t none es,
    observe_from_flush t none es,
    unfold mark_published has_unpublished_progress in ground arith,
  )
