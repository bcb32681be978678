-- ===== src/Tools/Schedule/Tests.antt =====
-- Tests of src/tools/scheduler.rs.
use rust_claw_oc.Prelude.{◌≡◌, refl, none, some}
use Prim.Native.String.{◌++◌ as append}
use rust_claw_oc.Prelude.{◌*◌, ◌%◌, ◌^◌, arith}
use rust_claw_oc.Prelude.Decimal.{show}
use rust_claw_oc.Tools.Schedule.Delay.{delay_seconds-show}
use rust_claw_oc.Tools.Schedule.{delay_seconds}

five_minutes : delay_seconds "5m" ≡ some 300
unfolding delay_seconds
five_minutes = refl

no_unit : delay_seconds "5" ≡ none
unfolding delay_seconds
no_unit = refl

too_large : delay_seconds "18446744073709551616s" ≡ some 0
unfolding delay_seconds
too_large = refl

delay_seconds-show_example :
    (delay_seconds (append (show 15) "s") ≡ some 15)
    × (delay_seconds (append (show 15) "m") ≡ some (15 * 60 % 2 ^ 64))
    × (delay_seconds (append (show 15) "h") ≡ some (15 * 3600 % 2 ^ 64))
delay_seconds-show_example = delay_seconds-show 15 (omega arith)
