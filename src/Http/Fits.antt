-- ===== src/Http/Fits.antt =====
-- The strings of the configuration stay within their arrays, whatever the handlers of src/http.c are
-- asked.
use cellmgr.Base.{
  ℕ, ◌-◌, ◌<◌, false, List, Option, none, some, ◌≡◌, arith, Bytes, length, length-take,
}
use cellmgr.Base.Int.{ℤ, pos, ◌≤ℤ◌}
use cellmgr.Config.Fits.{Fits}
use cellmgr.System.{System}
use cellmgr.Http.State.{AppState, Services}
use cellmgr.Http.Settings.{cfg_set_string, settings_from, schedule, bad_time}
use cellmgr.Http.Serve.{Turn, http_serve}
use cellmgr.Http.Closed.{IsClosed, http_serve-closed}

cfg_set_string-Fits :
    (dst : Bytes) (dst_sz : ℕ) (value : Option Bytes)
    → length dst < dst_sz
    → length (cfg_set_string dst dst_sz value) < dst_sz
unfolding cfg_set_string
cfg_set_string-Fits dst dst_sz none h = h
cfg_set_string-Fits dst dst_sz (some value) h = omega (arith, length-take {0} (dst_sz - 1) value)

pub Fits-IsClosed : IsClosed (λ state. Fits state.cfg)
unfolding schedule settings_from
Fits-IsClosed = record {
  activated = λ id state fit. omega (arith, length-take {0} 127 id);
  account_set =
      λ user pass state fit. omega (arith, length-take {0} 63 user, length-take {0} 127 pass);
  scheduled = λ enabled hour minute state good fit. omega arith;
  settings_saved = λ body state fit. omega (arith, cfg_set_string-Fits);
}

-- An hour from 0 to 23 and a minute from 0 to 59.
abbrev IsTime : ℤ → ℤ → Type 0
IsTime hour minute = (pos 0 ≤ℤ hour) × (hour ≤ℤ pos 23) × (pos 0 ≤ℤ minute) × (minute ≤ℤ pos 59)

bad_time-IsTime : (hour minute : ℤ) → bad_time hour minute ≡ false → IsTime hour minute
unfolding bad_time
bad_time-IsTime hour minute h = ground (arith, h)

-- The strings fit, and the scheduled reboot is at a time of the day.
pub record WellFormed (state : AppState) : Type 0 where
  pub fits : Fits state.cfg
  pub in_day : IsTime state.cfg.scheduled_reboot_hour state.cfg.scheduled_reboot_minute

WellFormed-IsClosed : IsClosed WellFormed
unfolding schedule settings_from
WellFormed-IsClosed = record {
  activated =
      λ id state h. record { fits = Fits-IsClosed.activated id state h.fits; in_day = h.in_day };
  account_set = λ user pass state h. record {
    fits = Fits-IsClosed.account_set user pass state h.fits;
    in_day = h.in_day;
  };
  scheduled = λ enabled hour minute state good h. record {
    fits = Fits-IsClosed.scheduled enabled hour minute state good h.fits;
    in_day = bad_time-IsTime hour minute good;
  };
  settings_saved = λ body state h. record {
    fits = Fits-IsClosed.settings_saved body state h.fits;
    in_day = h.in_day;
  };
}

pub settings_from-WellFormed :
    (body : Bytes) (state : AppState)
    → WellFormed state
    → WellFormed (record state { cfg = settings_from body state.cfg })
settings_from-WellFormed = WellFormed-IsClosed.settings_saved

module _ {World : Type 0} (sys : System World) (services : Services World) where
  -- Whatever comes over the connections, every string of the configuration stays within its array
  -- and the scheduled reboot at an hour from 0 to 23 and a minute from 0 to 59, if it was so before
  -- the first of them.
  pub http_serve-WellFormed :
      (turns : List Turn) (state : AppState) (w : World)
      → WellFormed state
      → WellFormed (http_serve sys services turns state w).0.1
  http_serve-WellFormed turns state w h =
      http_serve-closed sys services WellFormed WellFormed-IsClosed turns state w h
