-- ===== src/Money/Digits.antt =====
-- Decimal digits.
use sentinel_soroban_v.Base.{
  ℕ, zero, suc, ◌+◌, ◌-◌, ◌*◌, ◌/◌, ◌%◌, ◌<◌, ◌≤◌, [], ◌∷◌, ◌++◌, ◌≡◌, refl, true, false, ltb,
  Bool-cases, inl, inr, ltb→lt, length, length-append, arith,
}
use sentinel_soroban_v.Money.{
  Units, digits, to_string, value_from, value, is_digit, is_empty, replicate, pad_start,
}

abbrev pub Every : (ℕ → Type 0) → Units → Type 0
Every P [] = Unit
Every P (c ∷ s) = P c × Every P s

abbrev pub IsDigit : ℕ → Type 0
IsDigit c = is_digit c ≡ true

pub Every-append : (P : ℕ → Type 0) (s t : Units) → Every P s → Every P t → Every P (s ++ t)
Every-append P [] t hs ht = ht
Every-append P (c ∷ s) t hs ht = (hs.0, Every-append P s t hs.1 ht)

pub value_from-append :
    (n : ℕ) (s t : Units) → value_from n (s ++ t) ≡ value_from (value_from n s) t
unfolding value_from
value_from-append n [] t = refl
value_from-append n (c ∷ s) t = value_from-append (n * 10 + (c - b'0')) s t

IsDigit-of : (n : ℕ) → n < 10 → IsDigit (b'0' + n)
IsDigit-of n h = ground arith

digits-Digits : (fuel n : ℕ) → n ≤ fuel → Every IsDigit (digits fuel n)
unfolding digits
digits-Digits zero n h = (IsDigit-of (n % 10) (omega arith), tt)
digits-Digits (suc fuel) n h = elim (Bool-cases (ltb n 10)) [
  | inl small ↦ rw small (IsDigit-of n (ltb→lt n 10 small), tt)
  | inr large ↦ rw large (
      Every-append _ _ _ (digits-Digits fuel (n / 10) (omega arith))
        (IsDigit-of (n % 10) (omega arith), tt))
]

digits-value : (fuel n : ℕ) → n ≤ fuel → value_from 0 (digits fuel n) ≡ n
unfolding digits value_from
digits-value zero n h = omega arith
digits-value (suc fuel) n h = ground (
  arith,
  value_from-append 0 (digits fuel (n / 10)) ((b'0' + n % 10) ∷ []),
  digits-value fuel (n / 10),
)

-- a power of ten
abbrev pub tens : ℕ → ℕ
tens zero = 1
tens (suc k) = 10 * tens k

digits-length : (fuel n k : ℕ) → n ≤ fuel → n < tens (suc k) → length (digits fuel n) ≤ suc k
unfolding digits
digits-length zero n k h le = omega arith
digits-length (suc fuel) n zero h le = ground arith
digits-length (suc fuel) n (suc k) h le = ground (
  arith,
  length-append (digits fuel (n / 10)) ((b'0' + n % 10) ∷ []),
  digits-length fuel (n / 10) k,
)

digits-full : (fuel n : ℕ) → is_empty (digits fuel n) ≡ false
unfolding digits
digits-full zero n = refl
digits-full (suc fuel) n = elim (Bool-cases (ltb n 10)) [
  | inl small ↦ rw small refl
  | inr large ↦ rw large (full (digits fuel (n / 10)))
]
  where
    full : (s : Units) → is_empty (s ++ ((b'0' + n % 10) ∷ [])) ≡ false
    full [] = refl
    full (c ∷ s) = refl

pub to_string-Digits : (n : ℕ) → Every IsDigit (to_string n)
unfolding to_string
to_string-Digits n = digits-Digits n n (omega arith)

pub value-to_string : (n : ℕ) → value (to_string n) ≡ n
unfolding to_string value
value-to_string n = digits-value n n (omega arith)

pub to_string-full : (n : ℕ) → is_empty (to_string n) ≡ false
unfolding to_string
to_string-full n = digits-full n n

pub to_string-length : (n k : ℕ) → n < tens (suc k) → length (to_string n) ≤ suc k
unfolding to_string
to_string-length n k h = digits-length n n k (omega arith) h

-- noughts in front
pub noughts-Digits : (k : ℕ) → Every IsDigit (replicate k b'0')
noughts-Digits zero = tt
noughts-Digits (suc k) = (refl, noughts-Digits k)

pub length-noughts : (k : ℕ) → length (replicate k b'0') ≡ k
length-noughts zero = refl
length-noughts (suc k) = omega (arith, length-noughts k)

value_from-noughts : (k : ℕ) → value_from 0 (replicate k b'0') ≡ 0
unfolding value_from
value_from-noughts zero = refl
value_from-noughts (suc k) = value_from-noughts k

pub pad_start-Digits : (k : ℕ) (s : Units) → Every IsDigit s → Every IsDigit (pad_start k s)
pad_start-Digits k s h = Every-append _ _ s (noughts-Digits (k - length s)) h

pub length-pad_start : (k : ℕ) (s : Units) → length s ≤ k → length (pad_start k s) ≡ k
length-pad_start k s h =
    omega (arith, length-append (replicate (k - length s) b'0') s, length-noughts (k - length s))

pub value-pad_start : (k : ℕ) (s : Units) → value (pad_start k s) ≡ value s
unfolding value
value-pad_start k s =
    rw (value_from-append 0 (replicate (k - length s) b'0') s, value_from-noughts (k - length s))
      refl
