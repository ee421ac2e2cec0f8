-- ===== src/Shared/RateLimit/Tests.antt =====
-- Token buckets at concrete inputs.
use scalable_ecommerce_backe.Prelude.{ℕ, ◌-◌, ◌/◌, ◌+◌, ◌*◌, ◌≤◌, ◌≡◌, refl, [], ◌∷◌, arith}
use scalable_ecommerce_backe.Shared.RateLimit.{Config, unit, refilled, retry_after, serve}
use scalable_ecommerce_backe.Shared.RateLimit.Bounds.{after_calls, serve-IsBounded}

-- Two at once, and one each five seconds.
abbrev two : Config
two = record { capacity = 2; refill = 2; period_seconds = 10 }

-- A token each five seconds.
abbrev told : ℕ → ℕ
told left = 5000000 - left / 2

serve-IsBounded_example :
    (serve told two (500 ∷ 1000 ∷ 6000000 ∷ []) (after_calls told two 0 (0 ∷ []))).0 * unit two
      + (after_calls told two 0 (0 ∷ [])).ts * 2
    ≤ 2 * unit two + 6000000 * 2
serve-IsBounded_example =
    serve-IsBounded told two 0 6000000 (0 ∷ []) (500 ∷ 1000 ∷ 6000000 ∷ []) (omega arith)
      (omega arith, tt) (omega arith, (omega arith, (omega arith, tt)))

-- One of the two tokens is left, so the second call of the window is refused.
admitted : (serve told two (500 ∷ 1000 ∷ 6000000 ∷ []) (after_calls told two 0 (0 ∷ []))).0 ≡ 2
unfolding serve refilled retry_after
admitted = refl
