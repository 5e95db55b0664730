-- ===== src/Relay/Record/Times.antt =====
-- Go's time package, as the relay uses it: RFC 3339 texts of whole seconds.
use glidepath.Prelude.{ℕ, ◌*◌, ◌/◌, ◌<◌, ◌≡◌, String}
use glidepath.Relay.Reducer.{Time}

-- Nanoseconds.
abbrev pub second : ℕ
second = 1000000000

-- The start of the year 10000, where RFC 3339 ends, counted from Go's zero time.
abbrev pub end_of_years : Time
end_of_years = 315537897600 * second

-- `t.UTC().Format(time.RFC3339)`, and `parseTime`, which answers the zero time for any other text.
-- The package documents that formatting drops the fraction of the second and that parsing reads
-- back what formatting wrote. RFC 3339 can also write times before Go's zero time, those of the year
-- 0000 and, by an offset, hours at the start of the year 1: a record that holds one, which the relay
-- never writes and no pull request has, is outside the model, as `parse` has no number for it.
pub record TimeText : Type 0 where
  pub format : Time → String
  pub parse : String → Time
  pub parse-empty : parse "" ≡ 0
  pub parse-format : (t : Time) → t < end_of_years → parse (format t) ≡ t / second * second
