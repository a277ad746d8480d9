-- ===== src/Daemon/Traces.antt =====
-- What holds of the daemon in every order of the steps of its threads.
use cellmgr.Base.{
  Bool, true, false, ◌&&◌, List, [], ◌∷◌, some, inl, inr, ◌≡◌, ◌≢◌, refl, sym, ap, ◌∙◌, subst,
  arith, if◌then◌else◌, Bytes, Bool-cases, All, map,
}
use cellmgr.Base.Int.{ℤ, pos, eqb_ℤ}
use cellmgr.System.{System}
use cellmgr.Config.Fields.{AppConfig}
use cellmgr.Scheduler.{scheduler_turn}
use cellmgr.Scheduler.Days.{NoRepeat, scheduler_turn-IsDue, scheduler_turn_day}
use cellmgr.Http.State.{AppState, Services}
use cellmgr.Http.Closed.{IsClosed, serve_connection-closed}
use cellmgr.Http.Access.{lacks_session, serve_connection_outside}
use cellmgr.Daemon.{
  Daemon, Event, connection, turn, printed, elapses, tick_of, step, Reach, here, later, run,
}

module _ {World : Type 0} (sys : System World) (services : Services World) where
  -- What the assignments of the requests keep is kept by every step of every thread.
  pub step-closed :
      (P : AppState → Type 0) (e : Event World) (d : Daemon World)
      → IsClosed P
      → P d.state
      → P (step sys services e d).state
  unfolding step
  step-closed P (connection input) d laws h =
      serve_connection-closed sys services P laws d.state input d.world h
  step-closed P (turn hour minute yday) d laws h = h
  step-closed P (printed line) d laws h = h
  step-closed P (elapses change) d laws h = h

  pub Reach-closed :
      (P : AppState → Type 0) {d0 d : Daemon World}
      → IsClosed P
      → P d0.state
      → Reach sys services d0 d
      → P d.state
  Reach-closed P laws h here = h
  Reach-closed P laws h (later e {d} r) = step-closed P e d laws (Reach-closed P laws h r)

  -- Whether the scheduler calls for a reboot in a step.
  unfoldable pub reboots : Event World → Daemon World → Bool
  unfolding scheduler_turn
  reboots (turn hour minute yday) d =
      (scheduler_turn d.last_yday (tick_of d.state hour minute yday)).1
  reboots _ d = false

  abbrev pub time_of : Event World → ℤ × ℤ × ℤ
  time_of (turn hour minute yday) = (hour, minute, yday)
  time_of _ = (pos 0, pos 0, pos 0)

  -- The hour, the minute and the day of each turn of a run that calls for a reboot.
  unfoldable pub reboot_times : List (Event World) → Daemon World → List (ℤ × ℤ × ℤ)
  reboot_times [] d = []
  reboot_times (e ∷ events) d =
      let rest = reboot_times events (step sys services e d) in
      if reboots e d then time_of e ∷ rest else rest

  abbrev pub day_of : ℤ × ℤ × ℤ → ℤ
  day_of (hour, minute, yday) = yday

  pub reboot_times_fires :
      (e : Event World) (events : List (Event World)) (d : Daemon World)
      → reboots e d ≡ true
      → reboot_times (e ∷ events) d ≡ time_of e ∷ reboot_times events (step sys services e d)
  unfolding reboot_times
  reboot_times_fires e events d h = rw h

  pub reboot_times_waits :
      (e : Event World) (events : List (Event World)) (d : Daemon World)
      → reboots e d ≡ false
      → reboot_times (e ∷ events) d ≡ reboot_times events (step sys services e d)
  unfolding reboot_times
  reboot_times_waits e events d h = rw h

  day_fires :
      (e : Event World) (d : Daemon World)
      → reboots e d ≡ true
      → ((step sys services e d).last_yday ≡ day_of (time_of e))
        × (day_of (time_of e) ≢ d.last_yday)
  unfolding step reboots
  day_fires (turn hour minute yday) d h =
      let t = tick_of d.state hour minute yday in
      let due = (scheduler_turn-IsDue d.last_yday t).0 h in
      (rw h at (scheduler_turn_day d.last_yday t), due.3)
  day_fires (connection input) d h = cc
  day_fires (printed line) d h = cc
  day_fires (elapses change) d h = cc

  day_waits :
      (e : Event World) (d : Daemon World)
      → reboots e d ≡ false
      → (step sys services e d).last_yday ≡ d.last_yday
  unfolding step reboots
  day_waits (turn hour minute yday) d h =
      rw h at (scheduler_turn_day d.last_yday (tick_of d.state hour minute yday))
  day_waits (connection input) d h = refl
  day_waits (printed line) d h = refl
  day_waits (elapses change) d h = refl

  pub reboot_times-NoRepeat :
      (events : List (Event World)) (d : Daemon World)
      → NoRepeat d.last_yday (map day_of (reboot_times events d))
  reboot_times-NoRepeat [] d = unfold reboot_times in tt
  reboot_times-NoRepeat (e ∷ events) d =
      let ih = reboot_times-NoRepeat events (step sys services e d) in
      let times = map day_of (reboot_times events (step sys services e d)) in
      elim (Bool-cases (reboots e d)) [
        | inl h ↦
            let (day, new) = day_fires e d h in
            rw (reboot_times_fires e events d h) (new, subst (λ n. NoRepeat n times) day ih)
        | inr h ↦
            rw (reboot_times_waits e events d h)
              (subst (λ n. NoRepeat n times) (day_waits e d h) ih)
      ]

  -- A step in which no connection brings the session token.
  abbrev pub is_outside : Bytes → Event World → Bool
  is_outside token (connection input) = lacks_session token (some input)
  is_outside token _ = true

  abbrev pub are_outside : Bytes → List (Event World) → Bool
  are_outside token [] = true
  are_outside token (e ∷ events) = is_outside token e && are_outside token events

  -- The time that the configuration sets, with reboots enabled.
  abbrev pub IsConfigured : AppConfig → ℤ × ℤ × ℤ → Type 0
  IsConfigured cfg (hour, minute, yday) =
      (cfg.scheduled_reboot_enabled ≢ pos 0)
      × (hour ≡ cfg.scheduled_reboot_hour)
      × (minute ≡ cfg.scheduled_reboot_minute)

  step_outside :
      (e : Event World) (d : Daemon World)
      → eqb_ℤ d.state.cfg.auth_enabled (pos 0) ≡ false
      → is_outside d.state.session_token e ≡ true
      → (step sys services e d).state ≡ d.state
  unfolding step
  step_outside (connection input) d enabled h =
      ap (λ p. p.0) (serve_connection_outside sys services d.state input d.world enabled h)
  step_outside (turn hour minute yday) d enabled h = refl
  step_outside (printed line) d enabled h = refl
  step_outside (elapses change) d enabled h = refl

  reboots-IsConfigured :
      (e : Event World) (d : Daemon World)
      → reboots e d ≡ true
      → IsConfigured d.state.cfg (time_of e)
  unfolding reboots
  reboots-IsConfigured (turn hour minute yday) d h =
      let due = (scheduler_turn-IsDue d.last_yday (tick_of d.state hour minute yday)).0 h in
      (due.0, due.1, due.2)
  reboots-IsConfigured (connection input) d h = cc
  reboots-IsConfigured (printed line) d h = cc
  reboots-IsConfigured (elapses change) d h = cc

  pub run_outside :
      (events : List (Event World)) (d : Daemon World)
      → eqb_ℤ d.state.cfg.auth_enabled (pos 0) ≡ false
      → are_outside d.state.session_token events ≡ true
      → ((run sys services events d).state ≡ d.state)
        × All (IsConfigured d.state.cfg) (reboot_times events d)
  unfolding run
  run_outside [] d enabled h = (refl, unfold reboot_times in tt)
  run_outside (e ∷ events) d enabled h =
      let after = step sys services e d in
      let same = step_outside e d enabled (ground arith) in
      let rest : (are_outside d.state.session_token events ≡ true) = ground arith in
      let (kept, times) =
        run_outside events after
          (subst (λ s. eqb_ℤ s.cfg.auth_enabled (pos 0) ≡ false) (sym same) enabled)
          (subst (λ s. are_outside s.session_token events ≡ true) (sym same) rest) in
      let as_set : All (IsConfigured d.state.cfg) (reboot_times events after) =
        subst (λ s. All (IsConfigured s.cfg) (reboot_times events after)) same times in
      (
        kept ∙ same,
        elim (Bool-cases (reboots e d)) [
          | inl f ↦ rw (reboot_times_fires e events d f) (reboots-IsConfigured e d f, as_set)
          | inr f ↦ rw (reboot_times_waits e events d f) as_set
        ],
      )
