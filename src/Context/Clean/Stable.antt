-- ===== src/Context/Clean/Stable.antt =====
-- What `sanitize_turn` has cleaned is clean (src/context/history.rs).
use rust_claw_oc.Prelude.{◌≡◌, String, some, List}
use rust_claw_oc.Context.{Part}
use rust_claw_oc.Context.Clean.{clean_parts, filled}

module _ {V : Type 0} where
  -- A message's parts that stand for themselves.
  abbrev IsClean : String → List (Part V) → Type 0
  IsClean role ps = (clean_parts role ps ≡ ps) × (filled role ps ≡ some ps)
