-- ===== src/Money/Texts.antt =====
-- Trimming, padding and matching of amounts.
use sentinel_soroban_v.Base.{
  ℕ, zero, suc, ◌≤◌, Bool, false, ◌&&◌, [], ◌∷◌, ◌++◌, ◌≡◌, refl, some, inl, inr, Bool-cases,
  length, take, arith, ap,
}
use sentinel_soroban_v.Money.{
  Units, drop_start, drop_end, trim, is_space, is_empty, is_nought, pad_end, span_digits,
  match_amount, join_amount,
}
use sentinel_soroban_v.Money.Digits.{Every, IsDigit, Every-append}

module _ (p : ℕ → Bool) where
  abbrev pub Not : ℕ → Type 0
  Not c = p c ≡ false

  drop_start-Not : (s : Units) → Every Not s → drop_start p s ≡ s
  unfolding drop_start
  drop_start-Not [] h = refl
  drop_start-Not (c ∷ s) h = rw h.0 refl

  drop_end-Not : (s : Units) → Every Not s → drop_end p s ≡ s
  unfolding drop_end
  drop_end-Not [] h = refl
  drop_end-Not (c ∷ s) h = ground (arith, drop_end-Not s h.1, h.0)

  pub length-drop_end : (s : Units) → length (drop_end p s) ≤ length s
  unfolding drop_end
  length-drop_end [] = omega arith
  length-drop_end (c ∷ s) = ground (arith, length-drop_end s)

  pub drop_end-Every : (P : ℕ → Type 0) (s : Units) → Every P s → Every P (drop_end p s)
  unfolding drop_end
  drop_end-Every P [] h = tt
  drop_end-Every P (c ∷ s) h = elim (Bool-cases (is_empty (drop_end p s) && p c)) [
    | inl cut ↦ rw cut tt
    | inr kept ↦ rw kept (h.0, drop_end-Every P s h.1)
  ]

-- A text without white space is its own trim.
pub trim-Not : (s : Units) → Every (Not is_space) s → trim s ≡ s
unfolding trim
trim-Not s h = rw (drop_start-Not is_space s h) (drop_end-Not is_space s h)

-- Noughts that are cut off are the noughts that are padded.
pub pad_end-drop_end : (s : Units) → pad_end (length s) (drop_end is_nought s) ≡ s
unfolding drop_end
pad_end-drop_end [] = refl
pad_end-drop_end (c ∷ s) = ground (arith, pad_end-drop_end s)

pub take-all : (n : ℕ) (s : Units) → length s ≤ n → take n s ≡ s
take-all zero [] h = refl
take-all zero (c ∷ s) h = absurd (omega arith)
take-all (suc n) [] h = refl
take-all (suc n) (c ∷ s) h = ap (λ t. c ∷ t) (take-all n s (omega arith))

pub digit-Not_space : (c : ℕ) → IsDigit c → Not is_space c
digit-Not_space c h = ground arith

pub Digits-Not_space : (s : Units) → Every IsDigit s → Every (Not is_space) s
Digits-Not_space [] h = tt
Digits-Not_space (c ∷ s) h = (digit-Not_space c h.0, Digits-Not_space s h.1)

span_digits-all : (s : Units) → Every IsDigit s → span_digits s ≡ (s, [])
unfolding span_digits
span_digits-all [] h = refl
span_digits-all (c ∷ s) h = rw (span_digits-all s h.1, h.0) refl

span_digits-point : (s t : Units) → Every IsDigit s → span_digits (s ++ (b'.' ∷ t)) ≡ (s, b'.' ∷ t)
unfolding span_digits
span_digits-point [] t h = refl
span_digits-point (c ∷ s) t h = rw (span_digits-point s t h.1, h.0) refl

-- The text of a whole part and a fraction matches, with these groups.
pub match_amount-join :
    (whole frac : Units)
    → Every IsDigit whole
    → Every IsDigit frac
    → match_amount (join_amount whole frac) ≡ some (whole, frac)
unfolding match_amount join_amount
match_amount-join whole [] hw hf = rw (span_digits-all whole hw) refl
match_amount-join whole (c ∷ frac) hw hf =
    rw (span_digits-point whole (c ∷ frac) hw) (rw (span_digits-all frac hf.1, hf.0) refl)

pub join_amount-Not_space :
    (whole frac : Units)
    → Every IsDigit whole
    → Every IsDigit frac
    → Every (Not is_space) (join_amount whole frac)
unfolding join_amount
join_amount-Not_space whole [] hw hf = Digits-Not_space whole hw
join_amount-Not_space whole (c ∷ frac) hw hf =
    Every-append _ whole _ (Digits-Not_space whole hw) (refl, Digits-Not_space (c ∷ frac) hf)
