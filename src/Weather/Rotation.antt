-- ===== src/Weather/Rotation.antt =====
-- The routes that the passes take.
use sentinel_soroban_v.Base.{
  ℕ, ◌+◌, ◌/◌, ◌%◌, ◌<◌, true, false, ◌&&◌, [], ◌∷◌, ◌≡◌, ap, ◌∙◌, ◌==◌, count, arith,
}
use sentinel_soroban_v.World.Monad.{FleetRoute}
use sentinel_soroban_v.Revive.{Cache}
use sentinel_soroban_v.Weather.{quarter_of, quarter_at, is_calm, is_due}

quarter_of_lt : (r : FleetRoute) → quarter_of r < 4
unfolding quarter_of
quarter_of_lt r = omega arith

hits-one : (q n : ℕ) → q < 4 → count (λ k. q == (n + k) % 4) (0 ∷ 1 ∷ 2 ∷ 3 ∷ []) ≡ 1
hits-one q n lt = ground arith

due-calm :
    (cache : Cache) (now : ℕ) (r : FleetRoute)
    → (is_calm cache r.origin && is_calm cache r.destination) ≡ true
    → is_due cache now r ≡ (quarter_of r == quarter_at now)
unfolding is_due
due-calm cache now r calm = ground arith

due-stormy :
    (cache : Cache) (now : ℕ) (r : FleetRoute)
    → (is_calm cache r.origin && is_calm cache r.destination) ≡ false
    → is_due cache now r ≡ true
unfolding is_due
due-stormy cache now r stormy = ground arith

-- A pass takes every route with an airport that is not calm, and a route whose airports are calm in
-- all of four two-hour slots in a row is taken in exactly one of them, whichever slot they begin in.
pub is_due-rotation :
    (r : FleetRoute) (n : ℕ) (time : ℕ → ℕ) (cache : ℕ → Cache)
    → ((k : ℕ) → time k / 7200000 ≡ n + k)
    → (((k : ℕ)
          → (is_calm (cache k) r.origin && is_calm (cache k) r.destination) ≡ false
          → is_due (cache k) (time k) r ≡ true)
        × (((k : ℕ) → (is_calm (cache k) r.origin && is_calm (cache k) r.destination) ≡ true)
            → count (λ k. is_due (cache k) (time k) r) (0 ∷ 1 ∷ 2 ∷ 3 ∷ []) ≡ 1))
is_due-rotation r n time cache slots = (
  λ k stormy. due-stormy (cache k) (time k) r stormy,
  λ calm.
      let due : (k : ℕ) → is_due (cache k) (time k) r ≡ (quarter_of r == (n + k) % 4) =
        λ k. due-calm (cache k) (time k) r (calm k) ∙ ap (λ s. quarter_of r == s % 4) (slots k) in
      rw (due 0, due 1, due 2, due 3) (hits-one (quarter_of r) n (quarter_of_lt r)),
)
