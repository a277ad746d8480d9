-- ===== src/Scheduler/Days.antt =====
-- When the scheduler of src/scheduler.c reboots, and how often.
use cellmgr.Command.Call.{Runner}
use cellmgr.Base.{
  ℕ, Bytes, codes, ap, ◌∙◌, ◌++◌, append_assoc, append-nil, true, false, not, ◌&&◌, List, [], ◌∷◌,
  ◌≡◌, ◌≢◌, ◌↔◌, inl, inr, refl, sym, subst, arith, if◌then◌else◌, Bool-cases,
}
use cellmgr.Base.Int.{ℤ, pos, negsuc, eqb_ℤ}
use cellmgr.Scheduler.{Tick, is_due, scheduler_turn, do_reboot, scheduler_main}

-- The turn is at the configured minute of a day other than `last_yday`, and reboots are enabled.
abbrev pub IsDue : ℤ → Tick → Type 0
IsDue last_yday t =
    (t.cfg.scheduled_reboot_enabled ≢ pos 0)
    × (t.tm_hour ≡ t.cfg.scheduled_reboot_hour)
    × (t.tm_min ≡ t.cfg.scheduled_reboot_minute)
    × (t.tm_yday ≢ last_yday)

-- The days of the reboots that the loop makes.
unfoldable pub reboot_days : ℤ → List Tick → List ℤ
unfolding scheduler_turn
reboot_days last_yday [] = []
reboot_days last_yday (t ∷ ticks) =
    let (day, fires) = scheduler_turn last_yday t in
    let rest = reboot_days day ticks in if fires then t.tm_yday ∷ rest else rest

eqb_ℤ_iff : (a b : ℤ) → (eqb_ℤ a b ≡ true) ↔ (a ≡ b)
eqb_ℤ_iff (pos a) (pos b) = ground arith
eqb_ℤ_iff (pos a) (negsuc b) = ground arith
eqb_ℤ_iff (negsuc a) (pos b) = ground arith
eqb_ℤ_iff (negsuc a) (negsuc b) = ground arith

is_due_lem :
    (t : Tick) (last_yday : ℤ)
    → is_due t last_yday ≡ (
        eqb_ℤ t.tm_hour t.cfg.scheduled_reboot_hour
        && eqb_ℤ t.tm_min t.cfg.scheduled_reboot_minute
        && not (eqb_ℤ t.tm_yday last_yday))
is_due_lem t last_yday = unfold is_due in refl

-- A turn reboots exactly if it is due.
pub scheduler_turn-IsDue :
    (last_yday : ℤ) (t : Tick) → ((scheduler_turn last_yday t).1 ≡ true) ↔ IsDue last_yday t
unfolding scheduler_turn
scheduler_turn-IsDue last_yday t = ground (
  arith,
  is_due_lem t last_yday,
  eqb_ℤ_iff t.tm_hour t.cfg.scheduled_reboot_hour,
  eqb_ℤ_iff t.tm_min t.cfg.scheduled_reboot_minute,
  eqb_ℤ_iff t.tm_yday last_yday,
  eqb_ℤ_iff t.cfg.scheduled_reboot_enabled (pos 0),
)

-- No day stands next to itself, nor first behind `day`.
abbrev pub NoRepeat : ℤ → List ℤ → Type 0
NoRepeat day [] = Unit
NoRepeat day (d ∷ days) = (d ≢ day) × NoRepeat d days

pub scheduler_turn_day :
    (last_yday : ℤ) (t : Tick)
    → (scheduler_turn last_yday t).0
      ≡ (if (scheduler_turn last_yday t).1 then t.tm_yday else last_yday)
unfolding scheduler_turn
scheduler_turn_day last_yday t = ground arith

reboot_days-fires :
    (last_yday : ℤ) (t : Tick) (ticks : List Tick)
    → (scheduler_turn last_yday t).1 ≡ true
    → reboot_days last_yday (t ∷ ticks) ≡ t.tm_yday ∷ reboot_days t.tm_yday ticks
unfolding reboot_days
reboot_days-fires last_yday t ticks h = rw (scheduler_turn_day last_yday t, h) refl

reboot_days-waits :
    (last_yday : ℤ) (t : Tick) (ticks : List Tick)
    → (scheduler_turn last_yday t).1 ≡ false
    → reboot_days last_yday (t ∷ ticks) ≡ reboot_days last_yday ticks
unfolding reboot_days
reboot_days-waits last_yday t ticks h = rw (scheduler_turn_day last_yday t, h) refl

-- While the daemon runs no two reboots in succession are made on one day of the year, whatever the
-- clock and the settings do.
pub reboot_days-NoRepeat :
    (last_yday : ℤ) (ticks : List Tick) → NoRepeat last_yday (reboot_days last_yday ticks)
reboot_days-NoRepeat last_yday [] = unfold reboot_days in tt
reboot_days-NoRepeat last_yday (t ∷ ticks) = elim (Bool-cases (scheduler_turn last_yday t).1) [
  | inl e ↦
      let (on, hour, minute, new) = (scheduler_turn-IsDue last_yday t).0 e in
      subst (NoRepeat last_yday) (sym (reboot_days-fires last_yday t ticks e))
        (new, reboot_days-NoRepeat t.tm_yday ticks)
  | inr e ↦
      subst (NoRepeat last_yday) (sym (reboot_days-waits last_yday t ticks e))
        (reboot_days-NoRepeat last_yday ticks)
]

-- The days of the reboots that are due at the ticks: each is the day of a tick that is due behind the
-- last reboot.
pub data Days : ℤ → List Tick → List ℤ → Type 0 where
  over : (last_yday : ℤ) → Days last_yday [] []
  due :
      (last_yday : ℤ) (t : Tick) (ticks : List Tick) (days : List ℤ)
      → IsDue last_yday t
      → Days t.tm_yday ticks days
      → Days last_yday (t ∷ ticks) (t.tm_yday ∷ days)
  not_due :
      (last_yday : ℤ) (t : Tick) (ticks : List Tick) (days : List ℤ)
      → ¬ IsDue last_yday t
      → Days last_yday ticks days
      → Days last_yday (t ∷ ticks) days

-- A turn that does not reboot is not due.
pub scheduler_turn_waits :
    (last_yday : ℤ) (t : Tick) → (scheduler_turn last_yday t).1 ≡ false → ¬ IsDue last_yday t
scheduler_turn_waits last_yday t e h = cc ((scheduler_turn-IsDue last_yday t).1 h, e)

reboot_days-Days :
    (last_yday : ℤ) (ticks : List Tick) → Days last_yday ticks (reboot_days last_yday ticks)
reboot_days-Days last_yday [] = unfold reboot_days in over last_yday
reboot_days-Days last_yday (t ∷ ticks) = elim (Bool-cases (scheduler_turn last_yday t).1) [
  | inl e ↦ rw (reboot_days-fires last_yday t ticks e) (
      due last_yday t ticks (reboot_days t.tm_yday ticks) ((scheduler_turn-IsDue last_yday t).0 e)
        (reboot_days-Days t.tm_yday ticks))
  | inr e ↦ rw (reboot_days-waits last_yday t ticks e) (
      not_due last_yday t ticks (reboot_days last_yday ticks) (scheduler_turn_waits last_yday t e)
        (reboot_days-Days last_yday ticks))
]

-- The programs of one reboot, and of one for each day.
abbrev pub reboot_programs : List (List Bytes)
reboot_programs = (codes "sync" ∷ []) ∷ (codes "reboot" ∷ []) ∷ []

abbrev pub programs_of : List ℤ → List (List Bytes)
programs_of [] = []
programs_of (day ∷ days) = reboot_programs ++ programs_of days

-- What `programs` says was run, in order, grows by each call of `run_capture`.
abbrev pub IsLog : {World : Type 0} → Runner World → (World → List (List Bytes)) → Type 0
IsLog {World} run_capture programs =
    (argv : List Bytes) (timeout_ms : ℤ) (max_output : ℕ) (w : World)
    → programs (run_capture argv timeout_ms max_output w).1 ≡ programs w ++ argv ∷ []

module _ {World : Type 0} (run_capture : Runner World) (programs : World → List (List Bytes))
    (logged : IsLog run_capture programs) where
  pub do_reboot_lem :
      (w : World) → programs (do_reboot run_capture w) ≡ programs w ++ reboot_programs
  unfolding do_reboot
  do_reboot_lem w = rw (logged, logged, append_assoc)

  scheduler_main_step :
      (last_yday : ℤ) (t : Tick) (ticks : List Tick) (w : World)
      → scheduler_main run_capture last_yday (t ∷ ticks) w
        ≡ scheduler_main run_capture
            (scheduler_turn last_yday t).0
            ticks
            (if (scheduler_turn last_yday t).1 then do_reboot run_capture w else w)
  unfolding scheduler_main
  scheduler_main_step last_yday t ticks w = refl

  scheduler_main_runs :
      (last_yday : ℤ) (ticks : List Tick) (w : World)
      → programs (scheduler_main run_capture last_yday ticks w).1
        ≡ programs w ++ programs_of (reboot_days last_yday ticks)
  scheduler_main_runs last_yday [] w =
      unfold scheduler_main in unfold reboot_days in sym (append-nil (programs w))
  scheduler_main_runs last_yday (t ∷ ticks) w = elim (Bool-cases (scheduler_turn last_yday t).1) [
    | inl e ↦
        rw
          (
            scheduler_main_step last_yday t ticks w,
            reboot_days-fires last_yday t ticks e,
            scheduler_turn_day last_yday t,
            e,
          )
          (scheduler_main_runs t.tm_yday ticks (do_reboot run_capture w)
            ∙ ap (λ ran. ran ++ programs_of (reboot_days t.tm_yday ticks)) (do_reboot_lem w)
            ∙ append_assoc (programs w) reboot_programs (programs_of (reboot_days t.tm_yday ticks)))
    | inr e ↦
        rw
          (
            scheduler_main_step last_yday t ticks w,
            reboot_days-waits last_yday t ticks e,
            scheduler_turn_day last_yday t,
            e,
          )
          (scheduler_main_runs last_yday ticks w)
  ]

  -- With the programs that are run recorded: the loop runs `sync` and then `reboot` for each day on
  -- which a reboot is due, at the minute that is set then, and no other program; no two of these days
  -- in succession are the same.
  pub scheduler_main-Days :
      (last_yday : ℤ) (ticks : List Tick) (w : World)
      → (days : List ℤ) × Days last_yday ticks days
        × NoRepeat last_yday days
        × (programs (scheduler_main run_capture last_yday ticks w).1
            ≡ programs w ++ programs_of days)
  scheduler_main-Days last_yday ticks w = (
    reboot_days last_yday ticks,
    reboot_days-Days last_yday ticks,
    reboot_days-NoRepeat last_yday ticks,
    scheduler_main_runs last_yday ticks w,
  )
