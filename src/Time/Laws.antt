-- ===== src/Time/Laws.antt =====
-- Laws of the clock, and the parser on texts.
use antigravity2api.Base.{ℕ, ◌+◌, ◌≡◌, refl, some, none, arith}
use antigravity2api.Strings.{codes}
use antigravity2api.Time.{from_unix, unix, parse_rfc3339}

parse_epoch : parse_rfc3339 (codes "1970-01-01T00:00:00Z") ≡ some (from_unix 0)
unfolding parse_rfc3339
parse_epoch = refl

parse_leap :
    parse_rfc3339 (codes "2024-02-29T12:30:15.5+08:00") ≡ some (from_unix 1709181015 + 500_000_000)
unfolding parse_rfc3339
parse_leap = refl

parse_zero_time :
    (parse_rfc3339 (codes "0001-01-01T00:00:00Z") ≡ some 0)
    × (parse_rfc3339 (codes "0000-12-31T23:00:00-01:00") ≡ some 0)
    × (parse_rfc3339 (codes "0000-12-31T23:59:59Z") ≡ some 1)
unfolding parse_rfc3339
parse_zero_time = (refl, refl, refl)

parse_bad : parse_rfc3339 (codes "2023-02-29T12:30:15Z") ≡ none
unfolding parse_rfc3339
parse_bad = refl

pub unix-from_unix : (s : ℕ) → unix (from_unix s) ≡ s
unix-from_unix s = omega arith
