-- ===== src/Worker/Window.antt =====
-- Which warning a license is due for (apps/api/src/queue/worker.main.ts).
use asset_hub.Prelude.{
  Option-cases, inl, inr, ℕ, ◌+◌, ◌-◌, ◌*◌, ◌/◌, ◌≤◌, ◌<◌, ◌≡◌, ◌≢◌, ◌⊎◌, ◌↔◌, Option, none, some,
  Bool, false, ◌&&◌, List, [], ◌∷◌, ltb, leb, if◌then◌else◌, arith,
}

abbrev pub day_ms : ℕ
day_ms = 24 * 60 * 60 * 1000

abbrev pub warning_days : List ℕ
warning_days = 90 ∷ 60 ∷ 30 ∷ 7 ∷ []

-- `WARNING_DAYS[index + 1] ?? 0`
abbrev next_or_zero : List ℕ → ℕ
next_or_zero [] = 0
next_or_zero (w ∷ ws) = w

-- The callback of `WARNING_DAYS.find`, from the first threshold on.
unfoldable pub find_window : List ℕ → ℕ → Option ℕ
find_window [] d = none
find_window (w ∷ ws) d = if leb d w && ltb (next_or_zero ws) d then some w else find_window ws d

-- `diffMs <= 0`
abbrev pub is_expired : ℕ → ℕ → Bool
is_expired ends_at now = leb ends_at now

-- `Math.max(Math.ceil(diffMs / day), 0)`: the code reads the quotient of a license that has not
-- expired, and writes 0 for one that has.
unfoldable pub days_remaining : ℕ → ℕ → ℕ
days_remaining ends_at now = (ends_at - now + (day_ms - 1)) / day_ms

-- The least threshold that `d` days do not pass is `w`.
abbrev pub IsWindow : ℕ → ℕ → Type 0
IsWindow d w =
    (0 < d)
    × (d ≤ w)
    × (((w ≡ 7) ⊎ ((w ≡ 30) × (7 < d))) ⊎ (((w ≡ 60) × (30 < d)) ⊎ ((w ≡ 90) × (60 < d))))

-- The warning is the least of the thresholds 90, 60, 30 and 7 that the remaining days do not pass,
-- for one day or more, and there is none beyond 90 days.
pub find_window_least : (d w : ℕ) → (find_window warning_days d ≡ some w) ↔ IsWindow d w
unfolding find_window
find_window_least d w = ground arith

no_gap : (d : ℕ) → 0 < d → d ≤ 90 → find_window warning_days d ≢ none
unfolding find_window
no_gap d low high = ground arith

rounded_up :
    (ends_at now : ℕ)
    → is_expired ends_at now ≡ false
    → ends_at ≤ now + 90 * day_ms
    → (0 < days_remaining ends_at now)
      × (days_remaining ends_at now ≤ 90)
      × (ends_at ≤ now + days_remaining ends_at now * day_ms)
unfolding days_remaining
rounded_up ends_at now live near = let after : now < ends_at = ground arith in omega arith

-- A license that has not expired and ends within 90 days always has a warning, and the warning that
-- it has promises no less time than it is: it ends within that number of days.
pub live_license_window :
    (ends_at now : ℕ)
    → is_expired ends_at now ≡ false
    → ends_at ≤ now + 90 * day_ms
    → (w : ℕ) × (find_window warning_days (days_remaining ends_at now) ≡ some w)
      × (ends_at ≤ now + w * day_ms)
live_license_window ends_at now live near =
    let r = rounded_up ends_at now live near in
    elim (Option-cases (find_window warning_days (days_remaining ends_at now))) [
      | inl e ↦ absurd (no_gap (days_remaining ends_at now) r.0 r.1 e)
      | inr (w, e) ↦
          let k = (find_window_least (days_remaining ends_at now) w).0 e in
          let le : days_remaining ends_at now ≤ w = k.1 in (w, e, omega arith)
    ]
