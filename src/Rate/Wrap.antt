-- ===== src/Rate/Wrap.antt =====
-- The increase between two readings is that of the counter itself.
use redborder_monitor.Base.{ℕ, ◌+◌, ◌%◌, ◌^◌, ◌<◌, ◌≡◌, refl, ◌⊎◌, inl, inr, false, some, arith}
use redborder_monitor.Base.Int.{ℤ, sub_ℤ}
use redborder_monitor.Base.Float.{Float}
use redborder_monitor.Sensor.{CounterSample}
use redborder_monitor.Rate.{counter_delta, counter_rate, is_not_positive}

-- What an agent reports of a counter that has counted `total` since it began.
abbrev pub reading : ℕ → ℕ → ℤ → CounterSample
reading bits total at = record { value = total % 2 ^ bits; bits = bits; at = at }

counter_delta_wrap :
    (total more : ℕ) (a b : ℤ)
    → more < 2 ^ 32
    → counter_delta (reading 32 total a) (reading 32 (total + more) b) ≡ some more
unfolding counter_delta
counter_delta_wrap total more a b h = ground arith

counter_delta_64 :
    (total more : ℕ) (a b : ℤ)
    → total + more < 2 ^ 64
    → counter_delta (reading 64 total a) (reading 64 (total + more) b) ≡ some more
unfolding counter_delta
counter_delta_64 total more a b h = ground arith

-- The increase `more` can be told from two readings: a counter of 32 bits that has wrapped at most
-- once, or one of 64 bits that has not.
abbrev pub Readable : ℕ → ℕ → ℕ → Type 0
Readable bits total more = ((bits ≡ 32) × (more < 2 ^ 32)) ⊎ ((bits ≡ 64) × (total + more < 2 ^ 64))

counter_delta-reading :
    (bits total more : ℕ) (a b : ℤ)
    → Readable bits total more
    → counter_delta (reading bits total a) (reading bits (total + more) b) ≡ some more
counter_delta-reading bits total more a b (inl (e, h)) = rw e (counter_delta_wrap total more a b h)
counter_delta-reading bits total more a b (inr (e, h)) = rw e (counter_delta_64 total more a b h)

-- If the counter has counted `more` between two readings, a number that these can tell, and the
-- clock has moved on, then the rate is `more` by the seconds between them.
pub counter_rate-reading :
    {F : Type 0} ⦃fl : Float F⦄ (bits total more : ℕ) (a b : ℤ)
    → Readable bits total more
    → is_not_positive (fl.seconds (sub_ℤ b a)) ≡ false
    → counter_rate (reading bits total a) (reading bits (total + more) b)
      ≡ some (fl.div (fl.of_ℕ more) (fl.seconds (sub_ℤ b a)))
unfolding counter_rate
counter_rate-reading bits total more a b h k =
    rw (k, counter_delta-reading bits total more a b h) refl
