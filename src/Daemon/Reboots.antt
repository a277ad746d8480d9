-- ===== src/Daemon/Reboots.antt =====
-- The reboots that the daemon makes, as the programs that are run in the turns of the scheduler.
use cellmgr.Base.{
  ℕ, refl, true, false, List, [], ◌∷◌, ◌++◌, inl, inr, ◌≡◌, Bytes, Bool-cases, All, map,
}
use cellmgr.Base.Int.{ℤ, pos, eqb_ℤ}
use cellmgr.System.{System}
use cellmgr.Scheduler.Days.{NoRepeat, IsLog, reboot_programs, do_reboot_lem}
use cellmgr.Http.State.{Services}
use cellmgr.Daemon.{Daemon, Event, connection, turn, printed, elapses, step, run}
use cellmgr.Daemon.Traces.{
  reboots, reboot_times, reboot_times_fires, reboot_times_waits, day_of, reboot_times-NoRepeat,
  are_outside, IsConfigured, run_outside,
}

module _ {World : Type 0} (sys : System World) (services : Services World)
    (programs : World → List (List Bytes)) (logged : IsLog sys.run_capture programs) where
  -- The turns of a run in which the scheduler ran `sync` and then `reboot`, with their times; in every
  -- other turn it ran no program.
  pub data Made : List (Event World) → Daemon World → List (ℤ × ℤ × ℤ) → Type 0 where
    nothing : (d : Daemon World) → Made [] d []
    rebooted :
        (hour minute yday : ℤ) (events : List (Event World)) (d : Daemon World)
        (times : List (ℤ × ℤ × ℤ))
        → programs (step sys services (turn hour minute yday) d).world
          ≡ programs d.world ++ reboot_programs
        → Made events (step sys services (turn hour minute yday) d) times
        → Made (turn hour minute yday ∷ events) d ((hour, minute, yday) ∷ times)
    waited :
        (hour minute yday : ℤ) (events : List (Event World)) (d : Daemon World)
        (times : List (ℤ × ℤ × ℤ))
        → programs (step sys services (turn hour minute yday) d).world ≡ programs d.world
        → Made events (step sys services (turn hour minute yday) d) times
        → Made (turn hour minute yday ∷ events) d times
    asked :
        (input : List ℕ) (events : List (Event World)) (d : Daemon World) (times : List (ℤ × ℤ × ℤ))
        → Made events (step sys services (connection input) d) times
        → Made (connection input ∷ events) d times
    noted :
        (line : Bytes) (events : List (Event World)) (d : Daemon World) (times : List (ℤ × ℤ × ℤ))
        → Made events (step sys services (printed line) d) times
        → Made (printed line ∷ events) d times
    passed :
        (change : World → World) (events : List (Event World)) (d : Daemon World)
        (times : List (ℤ × ℤ × ℤ))
        → Made events (step sys services (elapses change) d) times
        → Made (elapses change ∷ events) d times

  turn_fires :
      (hour minute yday : ℤ) (d : Daemon World)
      → reboots sys services (turn hour minute yday) d ≡ true
      → programs (step sys services (turn hour minute yday) d).world
        ≡ programs d.world ++ reboot_programs
  unfolding step reboots
  turn_fires hour minute yday d h = rw h (do_reboot_lem sys.run_capture programs logged d.world)

  turn_waits :
      (hour minute yday : ℤ) (d : Daemon World)
      → reboots sys services (turn hour minute yday) d ≡ false
      → programs (step sys services (turn hour minute yday) d).world ≡ programs d.world
  unfolding step reboots
  turn_waits hour minute yday d h = rw h

  reboot_times-Made :
      (events : List (Event World)) (d : Daemon World)
      → Made events d (reboot_times sys services events d)
  unfolding reboots
  reboot_times-Made [] d = unfold reboot_times in nothing d
  reboot_times-Made (turn hour minute yday ∷ events) d =
      let e = turn hour minute yday in
      let rest = reboot_times-Made events (step sys services e d) in
      elim (Bool-cases (reboots sys services e d)) [
        | inl h ↦
            rw (reboot_times_fires sys services e events d h)
              (rebooted hour minute yday events d _ (turn_fires hour minute yday d h) rest)
        | inr h ↦
            rw (reboot_times_waits sys services e events d h)
              (waited hour minute yday events d _ (turn_waits hour minute yday d h) rest)
      ]
  reboot_times-Made (connection input ∷ events) d =
      rw (reboot_times_waits sys services (connection input) events d refl)
        (asked input events d _ (reboot_times-Made events (step sys services (connection input) d)))
  reboot_times-Made (printed line ∷ events) d =
      rw (reboot_times_waits sys services (printed line) events d refl)
        (noted line events d _ (reboot_times-Made events (step sys services (printed line) d)))
  reboot_times-Made (elapses change ∷ events) d =
      rw (reboot_times_waits sys services (elapses change) events d refl)
        (passed change events d _ (reboot_times-Made events (step sys services (elapses change) d)))

  -- With the programs that are run recorded, in every order of requests, turns of the scheduler, lines
  -- of the monitor and whatever happens outside: the turns in which `sync` and `reboot` are run are no
  -- two in succession on one day of the year, and in the other turns nothing is run.
  pub run-NoRepeat :
      (events : List (Event World)) (d : Daemon World)
      → (times : List (ℤ × ℤ × ℤ)) × Made events d times
        × NoRepeat d.last_yday (map (day_of sys services) times)
  run-NoRepeat events d = (
    reboot_times sys services events d,
    reboot_times-Made events d,
    reboot_times-NoRepeat sys services events d,
  )

  -- With the programs that are run recorded: while a login is required and nobody has the session token,
  -- the state stays as it is in every order of requests, turns, lines and whatever happens outside; the
  -- turns in which `sync` and `reboot` are run are at the time that it sets, with reboots enabled, and
  -- in the other turns nothing is run.
  pub run-IsConfigured :
      (events : List (Event World)) (d : Daemon World)
      → eqb_ℤ d.state.cfg.auth_enabled (pos 0) ≡ false
      → are_outside sys services d.state.session_token events ≡ true
      → ((run sys services events d).state ≡ d.state)
        × ((times : List (ℤ × ℤ × ℤ)) × Made events d times
            × All (IsConfigured sys services d.state.cfg) times)
  run-IsConfigured events d enabled h =
      let (kept, times) = run_outside sys services events d enabled h in
      (kept, (reboot_times sys services events d, reboot_times-Made events d, times))
