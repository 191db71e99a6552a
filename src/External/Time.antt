-- ===== src/External/Time.antt =====
-- `softadastra::core::time`, which the repository only calls: `Timestamp` and `Duration` are types
-- of the caller's choice, with the operations that the code uses. `Timestamp::now()` is an argument
-- of each operation that reads the clock.
use discovery.Base.{ℕ, ◌≡◌, Bool, false}
use discovery.Base.Int.{ℤ, FitsI64}

pub record Timestamps (T : Type 0) : Type 0 where
  pub millis : T → ℤ
  pub from_millis : ℤ → T
  pub is_valid : T → Bool
  -- `Timestamp{}`
  pub unset : T

pub record Durations (D : Type 0) : Type 0 where
  pub millis : D → ℤ
  pub from_millis : ℤ → D
  pub from_seconds : ℕ → D
  -- static_cast<Duration::rep> of a uint64
  pub cast_rep : ℕ → ℤ

-- What the code relies on: a timestamp is its count of milliseconds, and `Timestamp{}` is not valid.
pub record TimestampLaws {T : Type 0} (ts : Timestamps T) : Type 0 where
  pub from_millis-millis : (t : T) → ts.from_millis (ts.millis t) ≡ t
  pub millis-from_millis : (z : ℤ) → FitsI64 z → ts.millis (ts.from_millis z) ≡ z
  pub unset_invalid : ts.is_valid ts.unset ≡ false

pub record DurationLaws {D : Type 0} (ds : Durations D) : Type 0 where
  pub millis-from_millis : (z : ℤ) → ds.millis (ds.from_millis z) ≡ z
