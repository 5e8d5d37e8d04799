-- ===== src/Ttl/Sums.antt =====
-- Sums over the rounds of a rotation.
use sentinel_soroban_v.Base.{
  ℕ, zero, suc, ◌+◌, ◌%◌, ◌≤◌, ◌<◌, Option, none, some, List, [], ◌∷◌, ◌++◌, ◌≡◌, refl, ap, ◌∙◌,
  length, arith,
}
use native.Mathlib.Nat.{mod-eq_of_lt, add-mod_left}
use sentinel_soroban_v.Ttl.{get_elem?}

-- the sum of `n` terms, from term `r` on
abbrev pub sum_from : (ℕ → ℕ) → ℕ → ℕ → ℕ
sum_from g r zero = 0
sum_from g r (suc n) = g r + sum_from g (r + 1) n

sum_from-last : (g : ℕ → ℕ) (r n : ℕ) → sum_from g r (suc n) ≡ sum_from g r n + g (r + n)
sum_from-last g r zero = let same : r + 0 ≡ r = omega arith in omega (arith, ap g same)
sum_from-last g r (suc n) =
    let same : r + 1 + n ≡ r + suc n = omega arith in
    omega (arith, sum_from-last g (r + 1) n, ap g same)

sum_from-shift : (g : ℕ → ℕ) (r n : ℕ) → sum_from (λ i. g (i + 1)) r n ≡ sum_from g (r + 1) n
sum_from-shift g r zero = refl
sum_from-shift g r (suc n) = omega (arith, sum_from-shift g (r + 1) n)

pub sum_from-ext :
    (f g : ℕ → ℕ) (r n : ℕ) → ((i : ℕ) → i < r + n → f i ≡ g i) → sum_from f r n ≡ sum_from g r n
sum_from-ext f g r zero same = refl
sum_from-ext f g r (suc n) same =
    omega
      (arith, same r (omega arith), sum_from-ext f g (r + 1) n (λ i lt. same i (omega (arith, lt))))

pub sum_from-add :
    (f g : ℕ → ℕ) (r n : ℕ) → sum_from (λ i. f i + g i) r n ≡ sum_from f r n + sum_from g r n
sum_from-add f g r zero = omega arith
sum_from-add f g r (suc n) = omega (arith, sum_from-add f g (r + 1) n)

-- a rotation by one place leaves the sum of a cycle
sum_from-cycle : (g : ℕ → ℕ) (n : ℕ) → g n ≡ g 0 → sum_from (λ i. g (i + 1)) 0 n ≡ sum_from g 0 n
sum_from-cycle g n same =
    let place : 0 + n ≡ n = omega arith in
    let begin : sum_from g 0 (suc n) ≡ g 0 + sum_from g 1 n = refl in
    omega (arith, sum_from-shift g 0 n, begin, sum_from-last g 0 n, same, ap g place)

pub sum_from-rotation :
    (g : ℕ → ℕ) (n offset : ℕ) → sum_from (λ i. g ((i + offset) % n)) 0 n ≡ sum_from g 0 n
sum_from-rotation g n zero = sum_from-ext _ g 0 n (λ i lt.
    let same : i + 0 ≡ i = omega arith in ap g (rw same (mod-eq_of_lt (omega (arith, lt)))))
sum_from-rotation g n (suc offset) =
    let step = λ (i : ℕ).
      let same : i + suc offset ≡ i + 1 + offset = omega arith in ap (λ k. g (k % n)) same in
    let around : (n + offset) % n ≡ (0 + offset) % n =
      let same : 0 + offset ≡ offset = omega arith in rw same (add-mod_left n offset) in
    sum_from-ext _ (λ i. g ((i + 1 + offset) % n)) 0 n (λ i lt. step i)
    ∙ (sum_from-cycle (λ i. g ((i + offset) % n)) n (ap g around) ∙ sum_from-rotation g n offset)

module _ {A : Type 0} (f : A → ℕ) where
  abbrev pub total : List A → ℕ
  total [] = 0
  total (x ∷ xs) = f x + total xs

  abbrev pub weight : Option A → ℕ
  weight none = 0
  weight (some x) = f x

  pub total-append : (xs ys : List A) → total (xs ++ ys) ≡ total xs + total ys
  total-append [] ys = omega arith
  total-append (x ∷ xs) ys = omega (arith, total-append xs ys)

  sum_none : (r n : ℕ) → sum_from (λ i. weight (get_elem? [] i)) r n ≡ 0
  unfolding get_elem?
  sum_none r zero = refl
  sum_none r (suc n) = omega (arith, sum_none (r + 1) n)

  -- the terms of a list, read by their places
  pub sum-get_elem? :
      (xs : List A) (n : ℕ) → length xs ≤ n → sum_from (λ i. weight (get_elem? xs i)) 0 n ≡ total xs
  unfolding get_elem?
  sum-get_elem? [] n le = sum_none 0 n
  sum-get_elem? (x ∷ xs) zero le = absurd (omega (arith, le))
  sum-get_elem? (x ∷ xs) (suc n) le =
      let at : ℕ → ℕ = λ i. weight (get_elem? (x ∷ xs) i) in
      let tail =
        sum_from-ext (λ i. at (i + 1)) (λ i. weight (get_elem? xs i)) 0 n
          (λ i lt. let same : i + 1 ≡ suc i = omega arith in ap at same) in
      omega (arith, sum_from-shift at 0 n, tail, sum-get_elem? xs n (omega (arith, le)))
