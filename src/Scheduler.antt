-- ===== src/Scheduler.antt =====
-- src/scheduler.c: the thread of the scheduled reboot. One `Tick` is one turn of its loop, with the
-- local time and the settings at that moment; what else the daemon does in between shows in these.
pub mod Days
use cellmgr.Base.{ℕ, Bool, true, false, not, ◌&&◌, List, [], ◌∷◌, if◌then◌else◌, Bytes, codes}
use cellmgr.Base.Int.{ℤ, pos, negsuc, eqb_ℤ}
use cellmgr.Command.Call.{Runner}
use cellmgr.Config.Fields.{AppConfig}

-- `struct tm`, as far as it is read.
pub record Tick : Type 0 where
  pub cfg : AppConfig
  pub tm_hour : ℤ
  pub tm_min : ℤ
  pub tm_yday : ℤ

unfoldable pub is_due : Tick → ℤ → Bool
is_due t last_yday =
    eqb_ℤ t.tm_hour t.cfg.scheduled_reboot_hour
    && eqb_ℤ t.tm_min t.cfg.scheduled_reboot_minute
    && not (eqb_ℤ t.tm_yday last_yday)

-- `last_yday` behind the turn, and whether `do_reboot` is called in it.
unfoldable pub scheduler_turn : ℤ → Tick → ℤ × Bool
unfolding is_due
scheduler_turn last_yday t =
    if eqb_ℤ t.cfg.scheduled_reboot_enabled (pos 0)
    then (last_yday, false)
    else if is_due t last_yday
    then (t.tm_yday, true)
    else (last_yday, false)

abbrev pub no_day : ℤ
no_day = negsuc 0

module _ {World : Type 0} (run_capture : Runner World) where
  unfoldable pub do_reboot : World → World
  do_reboot w =
      let (res1, w1) = run_capture (codes "sync" ∷ []) (pos 3000) 1024 w in
      let (res2, w2) = run_capture (codes "reboot" ∷ []) (pos 3000) 1024 w1 in w2

  -- The loop, and the value of `last_yday` that it has reached.
  unfoldable pub scheduler_main : ℤ → List Tick → World → ℤ × World
  scheduler_main last_yday [] w = (last_yday, w)
  scheduler_main last_yday (t ∷ ticks) w =
      let (day, fires) = scheduler_turn last_yday t in
      scheduler_main day ticks (if fires then do_reboot w else w)
