-- ===== src/Tunnel/Backoff.antt =====
-- The backoff between two attempts.
use vor.Common.{ℕ, zero, suc, ◌*◌, ◌≡◌, refl, arith, min}
use vor.Tunnel.{backoff_ms}

min_four : (b : ℕ) → min 4 (suc (suc (suc (suc b)))) ≡ 4
min_four b = omega arith

-- The delay starts at 500 ms and doubles from one attempt to the next, up to 8000 ms.
pub backoff_ms-doubles :
    (a : ℕ) → (backoff_ms 0 ≡ 500) × (backoff_ms (suc a) ≡ min 8000 (2 * backoff_ms a))
unfolding backoff_ms
backoff_ms-doubles zero = (refl, refl)
backoff_ms-doubles (suc zero) = (refl, refl)
backoff_ms-doubles (suc (suc zero)) = (refl, refl)
backoff_ms-doubles (suc (suc (suc zero))) = (refl, refl)
backoff_ms-doubles (suc (suc (suc (suc a)))) = (refl, rw (min_four a, min_four (suc a)))
