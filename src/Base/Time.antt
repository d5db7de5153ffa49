-- ===== src/Base/Time.antt =====
-- Python's `datetime` as an instant in milliseconds since the epoch. A naive value carries the
-- reading that it would have in UTC, since every reader of a stored time takes it for UTC.
use hypr_blocker.Base.Int.{ℤ, scale}

pub data DateTime : Type 0 where
  naive aware : ℤ → DateTime

-- `dt.replace(tzinfo=UTC)` of a naive value, as an instant.
abbrev pub as_utc : DateTime → ℤ
as_utc (naive t) = t
as_utc (aware t) = t

abbrev pub hours : ℤ → ℤ
hours n = scale 3600000 n

abbrev pub minutes : ℤ → ℤ
minutes n = scale 60000 n

abbrev pub seconds : ℤ → ℤ
seconds n = scale 1000 n
