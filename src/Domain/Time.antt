-- ===== src/Domain/Time.antt =====
-- `datetime` and `timedelta`: microseconds since the first instant of year 1, in UTC, and a length
-- in microseconds. Python raises `OverflowError` outside the years 1 to 9999.
use ch_tech_landing_page_bac.Base.{ℕ, ◌+◌, ◌-◌, ◌*◌, ltb, if◌then◌else◌}
use ch_tech_landing_page_bac.Errors.{Result, ok, err, overflow_error}

abbrev pub Time : Type 0
Time = ℕ

abbrev pub Delta : Type 0
Delta = ℕ

-- The first instant after `datetime.max`.
abbrev pub end_of_time : Time
end_of_time = 315_537_897_600_000_000

abbrev pub minutes : ℕ → Delta
minutes n = n * 60_000_000

abbrev pub days : ℕ → Delta
days n = n * 86_400_000_000

-- `t + d`
unfoldable pub later : Time → Delta → Result Time
later t d = if ltb (t + d) end_of_time then ok (t + d) else err overflow_error

-- `t - d`
unfoldable pub earlier : Time → Delta → Result Time
earlier t d = if ltb t d then err overflow_error else ok (t - d)
