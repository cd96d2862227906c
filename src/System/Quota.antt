-- ===== src/System/Quota.antt =====
-- How full a quota is (system-admin.service.ts, `tenantUsage`): percents in hundredths.
use asset_hub.Prelude.{ℕ, Option, none, some, ◌==◌, leb, ltb, if◌then◌else◌}

pub data Severity : Type 0 where
  unlimited limit_reached critical warning normal unavailable : Severity

-- `rounded_ratio used limit` is `Math.round((used / limit) * 10000)`, which the run time computes in doubles.
unfoldable pub percent : (ℕ → ℕ → ℕ) → ℕ → Option ℕ → Option ℕ
percent rounded_ratio used none = none
percent rounded_ratio used (some limit) =
    some (if limit == 0 then (if ltb 0 used then 10000 else 0) else rounded_ratio used limit)

unfoldable pub severity : Option ℕ → Severity
severity none = Severity.unlimited
severity (some p) =
    if leb 10000 p
    then limit_reached
    else if leb 9000 p
    then critical
    else if leb 8000 p
    then warning
    else normal
