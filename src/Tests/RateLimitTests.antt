-- ===== src/Tests/RateLimitTests.antt =====
-- Tests and instances for RateLimit.
use sentinel_soroban_v.Base.{true, false, List, [], ◌∷◌, ◌≡◌, refl, arith}
use sentinel_soroban_v.RateLimit.{memory_allow}
use sentinel_soroban_v.RateLimit.History.{Request, served, expected, served-expected}

-- two callers, one of whom comes too often and is served again a minute later
abbrev requests : List Request
requests =
    record { bucket = "sale:a"; limit = 2; secs = 100 }
    ∷ record { bucket = "sale:a"; limit = 2; secs = 101 }
    ∷ record { bucket = "sale:b"; limit = 2; secs = 110 }
    ∷ record { bucket = "sale:a"; limit = 2; secs = 119 }
    ∷ record { bucket = "sale:a"; limit = 2; secs = 120 }
    ∷ []

throttled : served [] requests ≡ true ∷ true ∷ true ∷ false ∷ true ∷ []
unfolding served memory_allow
throttled = refl

served-expected_example : served [] requests ≡ expected [] requests
served-expected_example = served-expected requests (omega arith)
