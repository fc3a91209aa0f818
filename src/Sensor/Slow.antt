-- ===== src/Sensor/Slow.antt =====
-- internal/monitor/processor.go: when a cycle is slow, in whole numbers.
use redborder_monitor.Base.{ℕ, ◌*◌, ◌/◌, ◌^◌, ◌<◌, ◌≡◌, ap, ◌∙◌, leb, arith}
use redborder_monitor.Base.Int.{pos, mul_ℤ, quot_ℤ, wrap_64, ms_duration, wrap_64-small}
use redborder_monitor.Sensor.{slow_threshold, is_slow}

ms_duration-small : (n : ℕ) → n * 1000000 < 2 ^ 63 → ms_duration n ≡ pos (n * 1000000)
ms_duration-small n h = wrap_64-small (n * 1000000) h

slow_threshold-small :
    (timeout_ms : ℕ)
    → timeout_ms * 9000000 < 2 ^ 63
    → slow_threshold timeout_ms ≡ pos (timeout_ms * 900000)
slow_threshold-small timeout_ms h =
    let product : mul_ℤ (pos (timeout_ms * 1000000)) (pos 9) ≡ pos (timeout_ms * 9000000) =
      ground arith in
    let quotient : timeout_ms * 9000000 / 10 ≡ timeout_ms * 900000 = omega arith in
    ap (λ z. quot_ℤ (wrap_64 (mul_ℤ z (pos 9))) 10) (ms_duration-small timeout_ms (omega arith))
    ∙ ap (λ z. quot_ℤ (wrap_64 z) 10) product
    ∙ ap (λ z. quot_ℤ z 10) (wrap_64-small (timeout_ms * 9000000) h)
    ∙ ap pos quotient

pub is_slow-leb :
    (timeout_ms duration : ℕ)
    → timeout_ms * 9000000 < 2 ^ 63
    → is_slow timeout_ms duration ≡ leb (9 * (timeout_ms * 1000000)) (10 * duration)
unfolding is_slow
is_slow-leb timeout_ms duration h = rw (slow_threshold-small timeout_ms h) (ground arith)
