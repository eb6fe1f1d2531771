-- ===== src/Server/Commands/Expiry.antt =====
-- The expiry that EXPIRE computes, on 64 bits.
use wavicle.Prelude.{
  ℕ, ◌+◌, ◌*◌, ◌%◌, ◌^◌, ◌≤◌, ◌≡◌, ◌↔◌, ltb, inl, inr, Bool-cases, arith, ltb→lt, ltb_false→le,
}
use wavicle.Core.{Time}
use wavicle.Server.Commands.{duration, add_time}

-- For any count of seconds, the expiry is exact if and only if the count is at most 9,223,372,036: beyond that the
-- product with 10^9 wraps.
pub add_time-duration_iff :
    (now : Time) (seconds : ℕ)
    → (add_time now (duration seconds) ≡ now + seconds * 10 ^ 9) ↔ (seconds ≤ 9223372036)
unfolding add_time duration
add_time-duration_iff now seconds = elim (Bool-cases (ltb (seconds * 10 ^ 9 % 2 ^ 64) (2 ^ 63))) [
  | inl m ↦ rw m (λ h. omega (arith, ltb→lt _ _ m), λ h. omega arith)
  | inr m ↦
      rw m
        (λ h. ground (arith, ltb_false→le _ _ m), λ h. absurd (omega (arith, ltb_false→le _ _ m)))
]
