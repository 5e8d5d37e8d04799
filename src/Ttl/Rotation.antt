-- ===== src/Ttl/Rotation.antt =====
-- The rotation of the shards.
use sentinel_soroban_v.Base.{ℕ, ◌+◌, ◌/◌, ◌%◌, ◌<◌, String, [], ◌∷◌, ◌≡◌, ◌==◌, count, arith}
use sentinel_soroban_v.Ttl.{run_interval_ms, shard_of, in_shard}

shard_of_lt : (key : String) → shard_of key < 7
unfolding shard_of
shard_of_lt key = omega arith

abbrev pub hits : ℕ → ℕ → ℕ
hits s n = count (λ k. s == (n + k) % 7) (0 ∷ 1 ∷ 2 ∷ 3 ∷ 4 ∷ 5 ∷ 6 ∷ [])

hits-one : (s n : ℕ) → s < 7 → hits s n ≡ 1
hits-one s n lt = ground arith

-- Of seven weekly runs in a row, whichever week they begin in, exactly one selects a key.
pub in_shard-once :
    (key : String) (n : ℕ) (time : ℕ → ℕ)
    → ((k : ℕ) → time k / run_interval_ms ≡ n + k)
    → count (λ k. in_shard (time k) key) (0 ∷ 1 ∷ 2 ∷ 3 ∷ 4 ∷ 5 ∷ 6 ∷ []) ≡ 1
in_shard-once key n time weekly =
    rw (weekly 0, weekly 1, weekly 2, weekly 3, weekly 4, weekly 5, weekly 6)
      (hits-one (shard_of key) n (shard_of_lt key))
