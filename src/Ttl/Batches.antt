-- ===== src/Ttl/Batches.antt =====
-- The queue of batches.
use sentinel_soroban_v.Base.{
  ℕ, zero, suc, ◌+◌, ◌*◌, ◌/◌, ◌%◌, ◌≤◌, max, String, Bool, Option, none, some, List, [], ◌∷◌, ◌≡◌,
  refl, ap, count, length, take, ltb, arith, if◌then◌else◌,
}
use sentinel_soroban_v.Ttl.{
  Batch, batch_size, drop, batches_from, batches_of, get_elem?, push_some, round_of, rounds_from,
  interleaved,
}
use sentinel_soroban_v.Ttl.Sums.{
  sum_from, sum_from-ext, sum_from-add, sum_from-rotation, total, weight, total-append,
  sum-get_elem?,
}

module _ (f : Batch → ℕ) where
  total-push_some :
      (x : Option Batch) (xs : List Batch) → total f (push_some x xs) ≡ weight f x + total f xs
  total-push_some none xs = omega arith
  total-push_some (some x) xs = refl

  total-round_of :
      (routes travelers : List Batch) (i : ℕ)
      → total f (round_of routes travelers i)
        ≡ weight f (get_elem? routes i) + weight f (get_elem? travelers i)
  unfolding round_of
  total-round_of routes travelers i = omega (
    arith,
    total-push_some (get_elem? routes i) (push_some (get_elem? travelers i) []),
    total-push_some (get_elem? travelers i) [],
  )

  total-rounds_from :
      (routes travelers : List Batch) (rounds offset left r : ℕ)
      → total f (rounds_from routes travelers rounds offset left r)
        ≡ sum_from (λ i. total f (round_of routes travelers ((i + offset) % rounds))) r left
  unfolding rounds_from
  total-rounds_from routes travelers rounds offset zero r = refl
  total-rounds_from routes travelers rounds offset (suc left) r = omega (
    arith,
    total-append f (round_of routes travelers ((r + offset) % rounds))
        (rounds_from routes travelers rounds offset left (r + 1)),
    total-rounds_from routes travelers rounds offset left (r + 1),
  )

  -- every batch is queued once, wherever the rounds begin
  total-interleaved :
      (routes travelers : List Batch) (offset : ℕ)
      → total f (interleaved routes travelers offset) ≡ total f routes + total f travelers
  unfolding interleaved
  total-interleaved routes travelers offset =
      let rounds = max (length routes) (length travelers) in
      let each = λ (i : ℕ). total f (round_of routes travelers i) in
      omega (
        arith,
        total-rounds_from routes travelers rounds offset rounds 0,
        sum_from-rotation each rounds offset,
        sum_from-ext each _ 0 rounds (λ i lt. total-round_of routes travelers i),
        sum_from-add (λ i. weight f (get_elem? routes i)) (λ i. weight f (get_elem? travelers i)) 0
            rounds,
        sum-get_elem? f routes rounds (omega arith),
        sum-get_elem? f travelers rounds (omega arith),
      )

module _ (p : String → String → Bool) where
  -- how many keys of a batch are of the kind
  abbrev pub keys_like : Batch → ℕ
  keys_like b = count (p b.name) b.keys

  count-take-drop :
      (q : String → Bool) (n : ℕ) (keys : List String)
      → count q (take n keys) + count q (drop n keys) ≡ count q keys
  unfolding drop
  count-take-drop q zero keys = omega arith
  count-take-drop q (suc n) [] = omega arith
  count-take-drop q (suc n) (k ∷ keys) = ground (arith, count-take-drop q n keys)

  drop-nil : (n : ℕ) → drop {A = String} n [] ≡ []
  unfolding drop
  drop-nil zero = refl
  drop-nil (suc n) = refl

  drop-add : (m n k : ℕ) (keys : List String) → m + n ≡ k → drop n (drop m keys) ≡ drop k keys
  unfolding drop
  drop-add zero n k keys same =
      let same' : n ≡ k = omega (arith, same) in ap (λ i. drop i keys) same'
  drop-add (suc m) n zero keys same = absurd (omega (arith, same))
  drop-add (suc m) n (suc k) [] same = drop-nil n
  drop-add (suc m) n (suc k) (x ∷ keys) same = drop-add m n k keys (omega (arith, same))

  drop-all : (n : ℕ) (keys : List String) → length keys ≤ n → drop n keys ≡ []
  unfolding drop
  drop-all zero [] le = refl
  drop-all zero (k ∷ keys) le = absurd (omega (arith, le))
  drop-all (suc n) [] le = refl
  drop-all (suc n) (k ∷ keys) le = drop-all n keys (omega (arith, le))

  total-batches_from :
      (name : String) (keys : List String) (left n : ℕ)
      → length keys ≤ (n + left) * 20
      → total keys_like (batches_from name keys left n) ≡ count (p name) (drop (n * 20) keys)
  unfolding batches_from
  total-batches_from name keys zero n le = rw (drop-all (n * 20) keys (omega (arith, le))) refl
  total-batches_from name keys (suc left) n le =
      let rest = drop (n * 20) keys in
      let next : count (p name) (drop 20 rest) ≡ count (p name) (drop ((n + 1) * 20) keys) =
        ap (λ ks. count (p name) ks) (drop-add (n * 20) 20 ((n + 1) * 20) keys (omega arith)) in
      omega (
        arith,
        count-take-drop (p name) 20 rest,
        next,
        total-batches_from name keys left (n + 1) (omega (arith, le)),
      )

  total-batches_of :
      (name : String) (keys : List String)
      → total keys_like (batches_of name keys) ≡ count (p name) keys
  unfolding batches_of drop
  total-batches_of name keys =
      total-batches_from name keys ((length keys + 19) / 20) 0 (omega arith)

length-take_le : (n : ℕ) (keys : List String) → length (take n keys) ≤ n
length-take_le zero keys = omega arith
length-take_le (suc n) [] = omega arith
length-take_le (suc n) (k ∷ keys) = omega (arith, length-take_le n keys)

-- nought for a batch that a transaction can hold
abbrev pub excess : Batch → ℕ
excess b = if ltb batch_size (length b.keys) then 1 else 0

excess-batches_from :
    (name : String) (keys : List String) (left n : ℕ)
    → total excess (batches_from name keys left n) ≡ 0
unfolding batches_from
excess-batches_from name keys zero n = refl
excess-batches_from name keys (suc left) n =
    ground
      (arith, excess-batches_from name keys left (n + 1), length-take_le 20 (drop (n * 20) keys))

count-excess : (bs : List Batch) → count (λ b. ltb batch_size (length b.keys)) bs ≡ total excess bs
count-excess [] = refl
count-excess (b ∷ bs) = ground (arith, count-excess bs)

-- Wherever the rotation of the rounds begins, the queue of a run holds each key of the two lists as
-- often as its list does, in batches of its list's name, and no batch of more than 20 keys. Keys are
-- counted by any test of a name and a key.
pub interleaved-keys :
    (p : String → String → Bool) (route_name traveler_name : String)
    (routes travelers : List String) (offset : ℕ)
    → let queue =
        interleaved (batches_of route_name routes) (batches_of traveler_name travelers) offset in
      (total (keys_like p) queue ≡ count (p route_name) routes + count (p traveler_name) travelers)
      × (count (λ b. ltb batch_size (length b.keys)) queue ≡ 0)
unfolding batches_of
interleaved-keys p route_name traveler_name routes travelers offset =
    let first = batches_of route_name routes in
    let second = batches_of traveler_name travelers in
    (
      omega (
        arith,
        total-interleaved (keys_like p) first second offset,
        total-batches_of p route_name routes,
        total-batches_of p traveler_name travelers,
      ),
      omega (
        arith,
        count-excess (interleaved first second offset),
        total-interleaved excess first second offset,
        excess-batches_from route_name routes ((length routes + 19) / 20) 0,
        excess-batches_from traveler_name travelers ((length travelers + 19) / 20) 0,
      ),
    )
