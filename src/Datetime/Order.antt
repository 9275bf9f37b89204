-- ===== src/Datetime/Order.antt =====
-- The order of moments, and the parts of a moment.
use bolodb.Prelude.{ℕ, ◌<◌, ◌≡◌, arith}
use bolodb.Datetime.{ordinal, hour_of, minute_of, at_time}

-- A moment is made of its day, hour and minute.
pub at_time-parts : (t : ℕ) → at_time (ordinal t) (hour_of t) (minute_of t) ≡ t
at_time-parts t = omega arith

pub ordinal-at_time : (d h m : ℕ) → h < 24 → m < 60 → ordinal (at_time d h m) ≡ d
ordinal-at_time d h m p q = omega arith

pub hour_of-at_time : (d h m : ℕ) → h < 24 → m < 60 → hour_of (at_time d h m) ≡ h
hour_of-at_time d h m p q = omega arith

pub minute_of-at_time : (d h m : ℕ) → m < 60 → minute_of (at_time d h m) ≡ m
minute_of-at_time d h m q = omega arith
