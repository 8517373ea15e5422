-- ===== src/Limiter/Libraries.antt =====
-- What the limiter takes from golang.org/x/time/rate and from the chained device cache.
use center_agent.Prelude.{ℕ, ◌≡◌}
use center_agent.Prelude.Ints.{ℤ}
use center_agent.Prelude.Maps.{Map}
use center_agent.Prelude.Text.{Text}

-- `to_limit` is the conversion of bytes per second to a float.
pub record RateLib : Type 1 where
  pub Limit : Type 0
  pub Bucket : Type 0
  pub to_limit : ℕ → Limit
  pub new_limiter : Limit → ℤ → Bucket
  pub set_limit : Bucket → Limit → Bucket
  pub set_burst : Bucket → ℤ → Bucket
  pub limit_of : Bucket → Limit
  pub burst_of : Bucket → ℤ

-- The documented behaviour of the setters: each sets its own value and leaves the other.
pub record IsRateLib (R : RateLib) : Type 0 where
  pub limit-new : (l : R.Limit) (b : ℤ) → R.limit_of (R.new_limiter l b) ≡ l
  pub burst-new : (l : R.Limit) (b : ℤ) → R.burst_of (R.new_limiter l b) ≡ b
  pub limit-set_limit : (k : R.Bucket) (l : R.Limit) → R.limit_of (R.set_limit k l) ≡ l
  pub burst-set_limit : (k : R.Bucket) (l : R.Limit) → R.burst_of (R.set_limit k l) ≡ R.burst_of k
  pub limit-set_burst : (k : R.Bucket) (b : ℤ) → R.limit_of (R.set_burst k b) ≡ R.limit_of k
  pub burst-set_burst : (k : R.Bucket) (b : ℤ) → R.burst_of (R.set_burst k b) ≡ b

-- What `Get` answers: the devices under a key, `store.NotFound`, or another error.
pub data CacheReply : Type 0 where
  found : Map Text ℤ → CacheReply
  not_found failed : CacheReply
