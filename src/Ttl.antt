-- ===== src/Ttl.antt =====
-- dapp/api/_lib/jobs/ttl.ts: the shard of a run, and the batches of keys that it extends.
pub mod Rotation
pub mod Sums
pub mod Batches
pub mod Rows
pub mod Extender
pub mod Unswept
pub mod Results
pub mod Prune
use sentinel_soroban_v.Base.Text.{codes}
use sentinel_soroban_v.Base.{
  ℕ, zero, suc, ◌+◌, ◌*◌, ◌/◌, ◌%◌, ◌^◌, max, String, Bool, Option, none, some, List, [], ◌∷◌, ◌++◌,
  ◌==◌, if◌then◌else◌, length, take,
}

abbrev pub shards : ℕ
shards = 7

abbrev pub batch_size : ℕ
batch_size = 20

-- `RUN_INTERVAL_MS`: a week
abbrev pub run_interval_ms : ℕ
run_interval_ms = 604800000

-- the loop of `shardOf`; `| 0` and `>>> 0` keep the low 32 bits
unfoldable pub hash_from : ℕ → List ℕ → ℕ
hash_from h [] = h
hash_from h (c ∷ cs) = hash_from ((h * 31 + c) % 2 ^ 32) cs

unfoldable pub shard_of : String → ℕ
unfolding hash_from
shard_of s = hash_from 0 (codes s) % shards

-- `daySlot`
abbrev pub slot_of : ℕ → ℕ
slot_of now = now / run_interval_ms % shards

abbrev pub in_shard : ℕ → String → Bool
in_shard now key = shard_of key == slot_of now

-- `weekOffset`
abbrev pub week_offset : ℕ → ℕ
week_offset now = now / run_interval_ms / shards

-- A batch of keys of one contract
pub record Batch : Type 0 where
  pub name : String
  pub offset : ℕ
  pub keys : List String

-- `xs.slice(n)`
unfoldable pub drop : {A : Type 0} → ℕ → List A → List A
drop zero xs = xs
drop (suc n) [] = []
drop (suc n) (x ∷ xs) = drop n xs

-- batch number `n` and those after it, `left` in all
unfoldable pub batches_from : String → List String → ℕ → ℕ → List Batch
unfolding drop
batches_from name keys zero n = []
batches_from name keys (suc left) n =
    record {
      name = name;
      offset = n * batch_size;
      keys = take batch_size (drop (n * batch_size) keys);
    }
    ∷ batches_from name keys left (n + 1)

-- an entry of `perJob`
unfoldable pub batches_of : String → List String → List Batch
unfolding batches_from
batches_of name keys = batches_from name keys ((length keys + 19) / batch_size) 0

unfoldable pub get_elem? : {A : Type 0} → List A → ℕ → Option A
get_elem? [] n = none
get_elem? (x ∷ xs) zero = some x
get_elem? (x ∷ xs) (suc n) = get_elem? xs n

abbrev pub push_some : {A : Type 0} → Option A → List A → List A
push_some none xs = xs
push_some (some x) xs = x ∷ xs

-- what one round queues
unfoldable pub round_of : List Batch → List Batch → ℕ → List Batch
unfolding get_elem?
round_of routes travelers round =
    push_some (get_elem? routes round) (push_some (get_elem? travelers round) [])

-- the rounds from `r` on, `left` of `rounds` being left
unfoldable pub rounds_from : List Batch → List Batch → ℕ → ℕ → ℕ → ℕ → List Batch
unfolding round_of
rounds_from routes travelers rounds offset zero r = []
rounds_from routes travelers rounds offset (suc left) r =
    round_of routes travelers ((r + offset) % rounds)
    ++ rounds_from routes travelers rounds offset left (r + 1)

-- `interleaved`
unfoldable pub interleaved : List Batch → List Batch → ℕ → List Batch
unfolding rounds_from
interleaved routes travelers offset =
    let rounds = max (length routes) (length travelers) in
    rounds_from routes travelers rounds offset rounds 0
