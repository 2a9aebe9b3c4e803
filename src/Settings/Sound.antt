-- ===== src/Settings/Sound.antt =====
-- Settings that stay in range (backend/app/settings_store.py), and the runs that they admit
-- (backend/app/orchestrator/admission.py).
use concierge_agent.Prelude.{
  ℕ, ◌≡◌, refl, subst, String, Bool, true, ◌&&◌, Option, none, some, List, [], ◌∷◌, if◌then◌else◌,
  ◌==◌, string_eq, if-both, All, All-map_of, IsIn, All-IsIn, All-of_IsIn, &&-true, ==_eq,
}
use concierge_agent.Settings.Value.{Value, is_at_least, is_between}
use concierge_agent.Settings.Defaults.{Dict, defaults}
use concierge_agent.Settings.Parts.{World, passed}
use concierge_agent.Settings.Check.{check_setting}
use concierge_agent.Settings.Update.{
  has, get, get_settings, Effect, Result, refused, raised, saved, update_settings,
}
use concierge_agent.Settings.Stored.{value_in}
use concierge_agent.Settings.Accepted.{
  table_of, AllPass, update_settings-saved, update_settings_reads,
}
use concierge_agent.Settings.Ranges.{Range, IsWithin, ranges}
use concierge_agent.Settings.Ranges.Checked.{
  at_least-IsWithin, between-IsWithin, IsChecked, ranges-IsChecked,
}

-- Each integer setting is an integer within its range.
abbrev pub IsSound : Dict → Type 0
IsSound settings =
    All (λ (range : Range). IsWithin range.low range.high (get settings range.key)) ranges

-- A range and the setting that it is about, as a test.
is_within : ℕ → Option ℕ → Value → Bool
is_within low none v = is_at_least low v
is_within low (some high) v = is_between low high v

is_within-IsWithin :
    (low : ℕ) (high : Option ℕ) (v : Value) → is_within low high v ≡ true → IsWithin low high v
unfolding is_within
is_within-IsWithin low none v h = at_least-IsWithin low v h
is_within-IsWithin low (some high) v h = between-IsWithin low high v h

all_fit : Dict → List Range → Bool
all_fit settings [] = true
all_fit settings (range ∷ rest) =
    has range.key defaults
    && (is_within range.low range.high (get settings range.key) && all_fit settings rest)

abbrev Fits : Dict → Range → Type 0
Fits settings range =
    (has range.key defaults ≡ true) × IsWithin range.low range.high (get settings range.key)

all_fit-Fits :
    (settings : Dict) (rs : List Range) → all_fit settings rs ≡ true → All (Fits settings) rs
unfolding all_fit
all_fit-Fits settings [] h = tt
all_fit-Fits settings (range ∷ rest) h =
    let (known, more) = &&-true (has range.key defaults) _ h in
    let (fits, others) = &&-true (is_within range.low range.high (get settings range.key)) _ more in
    (
      (known, is_within-IsWithin range.low range.high (get settings range.key) fits),
      all_fit-Fits settings rest others,
    )

defaults-Fits : All (Fits (get_settings [])) ranges
unfolding all_fit is_within get_settings get
defaults-Fits = all_fit-Fits (get_settings []) ranges refl

value_in-keeps :
    (P : Value → Type 0) (updates : Dict) (key : String) (old : Value)
    → All (λ (item : String × Value). item.0 ≡ key → P item.1) updates
    → P old
    → P (value_in updates key old)
value_in-keeps P [] key old h k = k
value_in-keeps P ((j, v) ∷ rest) key old h k =
    value_in-keeps P rest key (if j == key then v else old) h.1
      (if-both P (j == key) v old (λ e. h.0 (==_eq j key e)) (λ e. k))

passing-IsWithin :
    (world : World) (updates : Dict) (range : Range)
    → IsIn range ranges
    → AllPass world updates
    → All
        (λ (item : String × Value). item.0 ≡ range.key → IsWithin range.low range.high item.1)
        updates
passing-IsWithin world updates range at h =
    All-map_of (λ (item : String × Value). check_setting world item.0 item.1 ≡ passed) _ updates
      (λ item ok e.
        All-IsIn (IsChecked world) ranges range (ranges-IsChecked world) at item.1
          (subst (λ key. check_setting world key item.1 ≡ passed) e ok))
      h

saved-IsSound :
    (world : World) (reachable : Bool) (updates rows after : Dict) (done : List Effect)
    → update_settings world reachable updates rows ≡ saved after done
    → IsSound (get_settings rows)
    → IsSound (get_settings after)
saved-IsSound world reachable updates rows after done h sound =
    All-of_IsIn
      (λ (range : Range). IsWithin range.low range.high (get (get_settings after) range.key)) ranges
      (λ range at.
        rw
          (update_settings_reads world reachable updates rows after done range.key h
            (All-IsIn (Fits (get_settings [])) ranges range defaults-Fits at).0)
          (value_in-keeps (IsWithin range.low range.high) updates range.key
            (get (get_settings rows) range.key)
            (passing-IsWithin world updates range at
              (update_settings-saved world reachable updates rows after done h).0)
            (All-IsIn (λ (r : Range). IsWithin r.low r.high (get (get_settings rows) r.key)) ranges
              range sound at)))

-- A request: what its tests ask, whether Redis answers, and the updates.
abbrev pub Request : Type 0
Request = World × (Bool × Dict)

-- The table after requests one after the other.
abbrev pub after_requests : List Request → Dict → Dict
after_requests [] rows = rows
after_requests ((world, (reachable, updates)) ∷ later) rows =
    after_requests later (table_of (update_settings world reachable updates rows) rows)

table_of-IsSound :
    (rows : Dict) (r : Result)
    → ((after : Dict) (done : List Effect) → r ≡ saved after done → IsSound (get_settings after))
    → IsSound (get_settings rows)
    → IsSound (get_settings (table_of r rows))
table_of-IsSound rows (refused ms) h sound = sound
table_of-IsSound rows raised h sound = sound
table_of-IsSound rows (saved after done) h sound = h after done refl

requests-IsSound :
    (requests : List Request) (rows : Dict)
    → IsSound (get_settings rows)
    → IsSound (get_settings (after_requests requests rows))
requests-IsSound [] rows sound = sound
requests-IsSound ((world, (reachable, updates)) ∷ later) rows sound =
    let r = update_settings world reachable updates rows in
    requests-IsSound later (table_of r rows) (
      table_of-IsSound rows r
        (λ after done e. saved-IsSound world reachable updates rows after done e sound) sound)

-- Whatever updates are requested, from an empty table on, accepted or refused, each integer setting
-- reads as an integer within its range.
pub settings-IsSound :
    (requests : List Request) → IsSound (get_settings (after_requests requests []))
settings-IsSound requests =
    requests-IsSound requests []
      (All-map_of (Fits (get_settings [])) _ ranges (λ range fits. fits.1) defaults-Fits)
