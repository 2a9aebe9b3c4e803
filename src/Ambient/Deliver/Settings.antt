-- ===== src/Ambient/Deliver/Settings.antt =====
-- The settings under which a bucket is flushed, and its quiet hours and digest times
-- (backend/app/ambient/deliver.py). A text HH:MM of the settings is the pair of its numbers.
use concierge_agent.Prelude.{
  ℕ, ◌+◌, ◌*◌, Bool, false, ◌&&◌, ◌||◌, Option, none, some, List, [], ◌∷◌, ltb, leb, if◌then◌else◌,
}
use concierge_agent.Prelude.Clock.{Instant, seconds, hours, midnight}
use concierge_agent.Ambient.Events.{Uuid}

abbrev pub ClockTime : Type 0
ClockTime = ℕ × ℕ

-- A zone of the tz database: the wall-clock reading of an instant, and the instant of a reading.
pub record Zone : Type 0 where
  pub wall : Instant → Instant
  pub instant : Instant → Instant

pub record Settings : Type 0 where
  pub quiet_hours : List ClockTime
  pub digest_times : List ClockTime
  pub timezone : Zone
  pub notification_budget : ℕ
  pub escalation_budget : ℕ

-- What a user has set; a timezone is set if its name is not empty.
pub record Prefs : Type 0 where
  pub quiet_hours : Option (List ClockTime)
  pub digest_times : Option (List ClockTime)
  pub timezone : Option Zone

module _ {ℓ} {A : Type ℓ} where
  abbrev pref_or : Option A → A → A
  pref_or none d = d
  pref_or (some a) d = a

-- The global settings under the user's preferences, where there is a user.
unfoldable pub effective_settings : Settings → (Uuid → Prefs) → Option Uuid → Settings
effective_settings globals prefs none = globals
effective_settings globals prefs (some user) = record globals {
  quiet_hours = pref_or (prefs user).quiet_hours globals.quiet_hours;
  digest_times = pref_or (prefs user).digest_times globals.digest_times;
  timezone = pref_or (prefs user).timezone globals.timezone;
}

-- local.replace(hour=hh, minute=mm, second=0, microsecond=0)
abbrev pub at_time : Instant → ClockTime → Instant
at_time local (hh, mm) = midnight local + (hours hh + seconds (mm * 60))

-- The wall clock stands in the range; a range whose end is before its start spans midnight.
abbrev pub in_range : Instant → Instant → Instant → Bool
in_range start end local =
    if leb start end then leb start local && ltb local end else leb start local || ltb local end

unfoldable pub in_quiet_hours : Instant → List ClockTime → Zone → Bool
in_quiet_hours now (start ∷ end ∷ []) zone =
    in_range (at_time (zone.wall now) start) (at_time (zone.wall now) end) (zone.wall now)
in_quiet_hours now _ zone = false

-- The latest of the digest times that have passed today, on the wall clock.
unfoldable pub latest_occurrence : Instant → List ClockTime → Option Instant
latest_occurrence local [] = none
latest_occurrence local (t ∷ rest) =
    let later = latest_occurrence local rest in
    if leb (at_time local t) local
    then elim later [
      | none ↦ some (at_time local t)
      | some at ↦ some (if leb at (at_time local t) then at_time local t else at)
    ]
    else later
