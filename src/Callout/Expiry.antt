-- ===== src/Callout/Expiry.antt =====
-- internal/callout/callout.go: how long an issued user JWT is valid.
use nats_jwt_callout.Base.{◌≡◌, ◌⊎◌, arith}
use nats_jwt_callout.Base.Int.{ℤ, pos, negsuc, ◌+ℤ◌, ◌≤ℤ◌, floor_div}
use nats_jwt_callout.Callout.{capped_expiry, unix}

pub record IsCapped (now token_expiry max_expiry expiry : ℤ) : Type 0 where
  pub by_token : expiry ≤ℤ token_expiry
  pub by_policy : pos 1 ≤ℤ max_expiry → expiry ≤ℤ now +ℤ max_expiry
  pub either : (expiry ≡ token_expiry) ⊎ ((pos 1 ≤ℤ max_expiry) × (expiry ≡ now +ℤ max_expiry))

-- The expiry of a user JWT is the token's own, or now plus the policy's cap if the cap is positive. It
-- is never later than the token's, nor than now plus a positive cap.
pub capped_expiry-IsCapped :
    (now token_expiry max_expiry : ℤ)
    → IsCapped now token_expiry max_expiry (capped_expiry now token_expiry max_expiry)
unfolding capped_expiry
capped_expiry-IsCapped now token_expiry max_expiry = ground arith

pub unix_mono : (s t : ℤ) → s ≤ℤ t → unix s ≤ℤ unix t
unfolding floor_div
unix_mono (pos m) (pos n) h = omega arith
unix_mono (pos m) (negsuc n) h = omega arith
unix_mono (negsuc m) (pos n) h = omega arith
unix_mono (negsuc m) (negsuc n) h = omega arith
