-- ===== src/Center/Auth/Clock.antt =====
-- The skew that `Verify` lets through.
use center_agent.Prelude.{ℕ, ◌+◌, ◌^◌, ◌≤◌, ◌<◌, ◌≡◌, refl, Bool-cases, ltb, inl, inr, false, arith}
use center_agent.Prelude.Ints.{ℤ, pos, negsuc, ltb_ℤ, ◌-ℤ◌, to_int64}
use center_agent.Prelude.Text.{IsInt64}
use center_agent.Center.Sign.{abs_int64}

-- Within the skew, or 2^63 seconds back, where the difference wraps around to the least int64.
pub data IsFresh (skew now : ℕ) (ts : ℤ) : Type 0 where
  early : (t : ℕ) → ts ≡ pos t → now ≤ t + skew → t ≤ now + skew → IsFresh skew now ts
  before_epoch : (n : ℕ) → ts ≡ negsuc n → now + n < skew → IsFresh skew now ts
  wrapped : (n : ℕ) → ts ≡ negsuc n → now + n + 1 ≡ 2 ^ 63 → IsFresh skew now ts

pub skew-IsFresh :
    (skew now : ℕ) (ts : ℤ)
    → now < 2 ^ 62
    → skew < 2 ^ 62
    → IsInt64 ts
    → ltb_ℤ (pos skew) (abs_int64 (to_int64 (pos now -ℤ ts))) ≡ false
    → IsFresh skew now ts
unfolding abs_int64
skew-IsFresh skew now (pos t) n s i h = early t refl (ground arith) (ground arith)
skew-IsFresh skew now (negsuc t) n s i h = elim (Bool-cases (ltb (now + t + 1) (2 ^ 63))) [
  | inl small ↦ before_epoch t refl (ground arith)
  | inr large ↦ wrapped t refl (ground arith)
]

pub skew-within :
    (skew now ts : ℕ)
    → now < 2 ^ 62
    → ts < 2 ^ 62
    → ts ≤ now + skew
    → now ≤ ts + skew
    → ltb_ℤ (pos skew) (abs_int64 (to_int64 (pos now -ℤ pos ts))) ≡ false
unfolding abs_int64
skew-within skew now ts n t ahead behind = ground arith

pub IsFresh-skew :
    (skew now : ℕ) (ts : ℤ)
    → now < 2 ^ 62
    → skew < 2 ^ 62
    → IsFresh skew now ts
    → ltb_ℤ (pos skew) (abs_int64 (to_int64 (pos now -ℤ ts))) ≡ false
unfolding abs_int64
IsFresh-skew skew now ts n s (early t e a b) = rw e (ground arith)
IsFresh-skew skew now ts n s (before_epoch t e a) = rw e (ground arith)
IsFresh-skew skew now ts n s (wrapped t e a) = rw e (ground arith)
