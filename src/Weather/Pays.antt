-- ===== src/Weather/Pays.antt =====
-- Actions that spend of a number of premium updates.
use sentinel_soroban_v.Base.{
  ℕ, ◌+◌, ◌≤◌, String, Bool, true, false, not, List, ◌≡◌, refl, count, count-split, arith,
  if◌then◌else◌,
}
use sentinel_soroban_v.World.{Event, Failure, wrote, update_premium}
use sentinel_soroban_v.World.Monad.{
  World, Result, ok, err, M, Note, pure, push, continue, handle, catch, ◌>>=◌, ◌>>◌,
}
use sentinel_soroban_v.World.Keeps.{IsPlain}
use sentinel_soroban_v.World.Cost.{Costs}
use sentinel_soroban_v.World.Debt.{Owes, paid}

-- A premium update whose call returned.
abbrev pub is_update : Event → Bool
is_update (wrote (update_premium key units) done) = done
is_update _ = false

pub plain-is_update : (e : Event) → IsPlain e → is_update e ≡ false
plain-is_update (wrote c done) h = absurd h
plain-is_update _ h = refl

abbrev pub updates : List Event → ℕ
updates log = count is_update log

-- A premium update whose call threw: it may have landed or not.
abbrev pub is_thrown : Event → Bool
is_thrown (wrote (update_premium key units) done) = not done
is_thrown _ = false

abbrev pub thrown_updates : List Event → ℕ
thrown_updates log = count is_thrown log

abbrev pub is_call : Event → Bool
is_call (wrote (update_premium key units) done) = true
is_call _ = false

-- The premium updates that were called, whether the call returned or threw.
abbrev pub update_calls : List Event → ℕ
update_calls log = count is_call log

call_split :
    (e : Event)
    → (if is_call e then 1 else 0) ≡ (if is_update e then 1 else 0) + (if is_thrown e then 1 else 0)
call_split (wrote (update_premium key units) true) = omega arith
call_split (wrote (update_premium key units) false) = omega arith
call_split _ = omega arith

pub calls_lem : (log : List Event) → update_calls log ≡ updates log + thrown_updates log
calls_lem log = count-split is_call is_update is_thrown call_split log

abbrev pub Ending : {A : Type 0} → (A → ℕ) → ℕ → ℕ → Result A × World → Type 0
Ending g n before (ok a, w) = updates w.log + g a ≤ before + n
Ending g n before (err e, w) = updates w.log ≤ before

-- An action that has `n` updates to spend: what its value leaves, and it spends nothing if it throws.
pub record Pays {A : Type 0} (g : A → ℕ) (n : ℕ) (m : M A) : Type 0 where
  pub at : (w : World) → Ending g n (updates w.log) (m w)

abbrev pub Free : {A : Type 0} → M A → Type 0
Free m = Costs is_update 0 m

module _ {A : Type 0} {g : A → ℕ} {n : ℕ} where
  pub Pays-pure : (a : A) → g a ≤ n → Pays g n (pure a)
  unfolding pure
  Pays-pure a le = record { at = λ w. omega (arith, le) }

  pub Pays-if : (b : Bool) (m k : M A) → Pays g n m → Pays g n k → Pays g n (if b then m else k)
  Pays-if true m k hm hk = hm
  Pays-if false m k hm hk = hk

  pub Pays-catch :
      (m : M A) (h : Failure → M A)
      → Pays g n m
      → ((e : Failure) → Pays g n (h e))
      → Pays g n (catch m h)
  unfolding catch
  Pays-catch m h hm hh = record { at = λ w. go w (m w) (hm.at w) }
    where
      lower :
          (before after : ℕ) (r : Result A × World)
          → after ≤ before
          → Ending g n after r
          → Ending g n before r
      lower before after (ok a, w) le q = omega (arith, le, q)
      lower before after (err e, w) le q = omega (arith, le, q)

      go :
          (w : World) (r : Result A × World)
          → Ending g n (updates w.log) r
          → Ending g n (updates w.log) (handle r.0 h r.1)
      go w (ok a, w') q = q
      go w (err e, w') q = lower (updates w.log) (updates w'.log) (h e w') q ((hh e).at w')

module _ {A B : Type 0} {g : B → ℕ} {n : ℕ} where
  pub Pays-after :
      (m : M A) (k : A → M B) → Free m → ((a : A) → Pays g n (k a)) → Pays g n (m >>= k)
  unfolding ◌>>=◌
  Pays-after m k hm hk = record { at = λ w. go w (m w) (hm.at w) }
    where
      lower :
          (before after : ℕ) (r : Result B × World)
          → after ≤ before + 0
          → Ending g n after r
          → Ending g n before r
      lower before after (ok a, w) le q = omega (arith, le, q)
      lower before after (err e, w) le q = omega (arith, le, q)

      go :
          (w : World) (r : Result A × World)
          → updates r.1.log ≤ updates w.log + 0
          → Ending g n (updates w.log) (continue r.0 k r.1)
      go w (ok a, w') le = lower (updates w.log) (updates w'.log) (k a w') le ((hk a).at w')
      go w (err e, w') le = omega (arith, le)

  pub Pays-map :
      {f : A → ℕ} (m : M A) (k : A → B)
      → Pays f n m
      → ((a : A) → g (k a) ≤ f a)
      → Pays g n (m >>= λ a. pure (k a))
  unfolding ◌>>=◌ pure
  Pays-map {f} m k hm le = record { at = λ w. go w (m w) (hm.at w) }
    where
      go :
          (w : World) (r : Result A × World)
          → Ending f n (updates w.log) r
          → Ending g n (updates w.log) (continue r.0 (λ a. pure (k a)) r.1)
      go w (ok a, w') q = omega (arith, le a, q)
      go w (err e, w') q = q

  -- one update, and then what cannot throw
  pub Pays-one :
      (m : M A) (flight : String) (note : Note) (b : B)
      → Owes is_update 0 (λ a. 1) m
      → g b + 1 ≤ n
      → Pays g n (m >>= λ a. push flight note >> pure b)
  unfolding ◌>>=◌ pure push
  Pays-one m flight note b hm le = record { at = λ w. go w (m w) (hm.at w) }
    where
      go :
          (w : World) (r : Result A × World)
          → updates r.1.log + 0 ≤ updates w.log + paid (λ a. 1) r.0
          → Ending g n (updates w.log) (continue r.0 (λ a. push flight note >> pure b) r.1)
      go w (ok a, w') q = omega (arith, le, q)
      go w (err e, w') q = omega (arith, q)

module _ {A B : Type 0} {f : A → ℕ} {n : ℕ} where
  pub Costs-Pays :
      (m : M A) (k : A → M B)
      → Pays f n m
      → ((a : A) → Costs is_update (f a) (k a))
      → Costs is_update n (m >>= k)
  unfolding ◌>>=◌
  Costs-Pays m k hm hk = record { at = λ w. go w (m w) (hm.at w) }
    where
      go :
          (w : World) (r : Result A × World)
          → Ending f n (updates w.log) r
          → updates (continue r.0 k r.1).1.log ≤ updates w.log + n
      go w (ok a, w') q = omega (arith, q, (hk a).at w')
      go w (err e, w') q = omega (arith, q)
