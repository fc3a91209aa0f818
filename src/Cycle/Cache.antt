-- ===== src/Cycle/Cache.antt =====
-- What a cycle does to the cache of the sensor, and to the channel.
use redborder_monitor.Base.{ℕ, ◌+◌, ◌≡◌, true, Option, none, List, [], ◌∷◌}
use redborder_monitor.Base.Text.{Bytes}
use redborder_monitor.Base.Float.{Float}
use redborder_monitor.Model.{Monitor}
use redborder_monitor.Values.{MonitorState}
use redborder_monitor.Query.{is_queried}

module _ {F : Type 0} ⦃fl : Float F⦄ where
  -- The monitors of this name are queries, and none of them has got a state.
  abbrev pub Silent : (ℕ → Option (MonitorState F)) → Bytes → ℕ → Monitor F → Type 0
  Silent results name i m = m.name ≡ name → (is_queried m ≡ true) × (results i ≡ none)

  abbrev pub AllSilent : (ℕ → Option (MonitorState F)) → Bytes → ℕ → List (Monitor F) → Type 0
  AllSilent results name i [] = Unit
  AllSilent results name i (m ∷ ms) = Silent results name i m × AllSilent results name (i + 1) ms
