-- ===== src/World/Debt.antt =====
-- Actions whose result accounts for the events that they add: what a block has spent so far is a
-- debt, and the value that it returns must cover it.
use sentinel_soroban_v.Base.{
  ℕ, String, ◌+◌, ◌≤◌, Bool, true, false, List, ◌≡◌, arith, count, if◌then◌else◌,
}
use sentinel_soroban_v.World.Events.{Event, Failure, sql}
use sentinel_soroban_v.World.Db.{Db}
use sentinel_soroban_v.World.Monad.{
  Env, World, Result, ok, err, M, pure, raise, continue, handle, ◌>>=◌, catch, statement, Note,
  push, skip,
}
use sentinel_soroban_v.World.Cost.{Costs}

abbrev pub paid : {A : Type 0} → (A → ℕ) → Result A → ℕ
paid f (ok a) = f a
paid f (err e) = 0

abbrev pub IsOk : {A : Type 0} → Result A → Type 0
IsOk (ok a) = Unit
IsOk (err e) = ⊥

module _ (p : Event → Bool) where
  pub record Owes {A : Type 0} (n : ℕ) (f : A → ℕ) (m : M A) : Type 0 where
    pub at : (w : World) → count p (m w).1.log + n ≤ count p w.log + paid f (m w).0

  -- An action that never throws and adds nothing.
  pub record IsSafe {A : Type 0} (m : M A) : Type 0 where
    pub at : (w : World) → IsOk (m w).0 × (count p (m w).1.log ≤ count p w.log)

  module _ {A : Type 0} where
    pub Owes-free : (m : M A) → Costs p 0 m → Owes 0 (λ (a : A). 0) m
    Owes-free m h = record { at = λ w. omega (arith, h.at w) }

    pub Owes-pure : {n : ℕ} {f : A → ℕ} (a : A) → n ≤ f a → Owes n f (pure a)
    unfolding pure
    Owes-pure a h = record { at = λ w. omega arith }

    pub Owes-raise : {f : A → ℕ} (e : Failure) → Owes 0 f (raise e)
    unfolding raise
    Owes-raise e = record { at = λ w. omega arith }

    pub Owes-if :
        {n : ℕ} {f : A → ℕ} (b : Bool) (m k : M A)
        → Owes n f m
        → Owes n f k
        → Owes n f (if b then m else k)
    Owes-if true m k hm hk = hm
    Owes-if false m k hm hk = hk

    Owes-handle :
        {f : A → ℕ} (r : Result A) (h : Failure → M A) (spent : ℕ) (w : World)
        → count p w.log ≤ spent + paid f r
        → ((e : Failure) → Owes 0 f (h e))
        → count p (handle r h w).1.log ≤ spent + paid f (handle r h w).0
    Owes-handle (ok a) h spent w le kh = le
    Owes-handle (err e) h spent w le kh = omega (arith, (kh e).at w)

    pub Owes-catch :
        {f : A → ℕ} (m : M A) (h : Failure → M A)
        → Owes 0 f m
        → ((e : Failure) → Owes 0 f (h e))
        → Owes 0 f (catch m h)
    unfolding catch
    Owes-catch {f} m h hm kh = record {
      at = λ w.
          let (r, w') = m w in
          let le = Owes-handle {f = f} r h (count p w.log) w' (omega (arith, hm.at w)) kh in
          omega arith;
    }

    IsSafe-handle :
        (r : Result A) (h : Failure → M A) → ((e : Failure) → IsSafe (h e)) → IsSafe (handle r h)
    IsSafe-handle (ok a) h kh = record { at = λ w. (tt, omega arith) }
    IsSafe-handle (err e) h kh = record { at = λ w. (kh e).at w }

    pub IsSafe-catch :
        (m : M A) (h : Failure → M A)
        → Costs p 0 m
        → ((e : Failure) → IsSafe (h e))
        → IsSafe (catch m h)
    unfolding catch
    IsSafe-catch m h hm kh = record {
      at = λ w.
          let (r, w') = m w in
          let after = (IsSafe-handle r h kh).at w' in (after.0, omega (arith, after.1, hm.at w));
    }

    pub IsSafe-pure : (a : A) → IsSafe (pure a)
    unfolding pure
    IsSafe-pure a = record { at = λ w. (tt, omega arith) }

    pub IsSafe-if : (b : Bool) (m k : M A) → IsSafe m → IsSafe k → IsSafe (if b then m else k)
    IsSafe-if true m k hm hk = hm
    IsSafe-if false m k hm hk = hk

  pub IsSafe-skip : IsSafe skip
  unfolding skip
  IsSafe-skip = record { at = λ w. (tt, omega arith) }

  pub IsSafe-push : (flight : String) (note : Note) → IsSafe (push flight note)
  unfolding push
  IsSafe-push flight note = record { at = λ w. (tt, omega arith) }

  module _ {A B : Type 0} where
    Owes-continue :
        {f : A → ℕ} {g : B → ℕ} (r : Result A) (k : A → M B) (spent : ℕ) (w : World)
        → count p w.log ≤ spent + paid f r
        → ((a : A) → Owes (f a) g (k a))
        → count p (continue r k w).1.log ≤ spent + paid g (continue r k w).0
    Owes-continue (ok a) k spent w le hk = omega (arith, (hk a).at w)
    Owes-continue (err e) k spent w le hk = le

    -- What the beginning of a block has spent is the debt of its rest.
    pub Owes-bind :
        {f : A → ℕ} {g : B → ℕ} (m : M A) (k : A → M B)
        → Owes 0 f m
        → ((a : A) → Owes (f a) g (k a))
        → Owes 0 g (m >>= k)
    unfolding ◌>>=◌
    Owes-bind {f} {g} m k hm hk = record {
      at = λ w.
          let (r, w') = m w in
          let le =
            Owes-continue {f = f} {g = g} r k (count p w.log) w' (omega (arith, hm.at w)) hk in
          omega arith;
    }

    -- While there is a debt, only what cannot throw may come before the value.
    pub Owes-safe :
        {n : ℕ} {g : B → ℕ} (m : M A) (k : A → M B)
        → IsSafe m
        → ((a : A) → Owes n g (k a))
        → Owes n g (m >>= k)
    unfolding ◌>>=◌
    Owes-safe {n} {g} m k hm hk = record { at = λ w. go w (m w) (hm.at w) }
      where
        go :
            (w : World) (r : Result A × World)
            → IsOk r.0 × (count p r.1.log ≤ count p w.log)
            → count p (continue r.0 k r.1).1.log + n ≤ count p w.log + paid g (continue r.0 k r.1).0
        go w (ok a, w') h = omega (arith, (hk a).at w')
        go w (err e, w') h = absurd h.0

    -- An action that accounts for itself, within a budget for all that comes.
    pub Costs-Owes :
        {f : A → ℕ} {j : ℕ} (m : M A) (k : A → M B)
        → Owes 0 f m
        → ((a : A) → (i : ℕ) × (f a + i ≤ j) × Costs p i (k a))
        → Costs p j (m >>= k)
    unfolding ◌>>=◌
    Costs-Owes {f} {j} m k hm hk = record { at = λ w. go (count p w.log) (m w) (hm.at w) }
      where
        go :
            (spent : ℕ) (r : Result A × World)
            → count p r.1.log + 0 ≤ spent + paid f r.0
            → count p (continue r.0 k r.1).1.log ≤ spent + j
        go spent (ok a, w') le = let (i, within, rest) = hk a in omega (arith, rest.at w')
        go spent (err e, w') le = omega arith

  pub IsSafe-statement :
      (env : Env) (f : Db → Db)
      → ((log : List Event) → env.sql_answers log ≡ true)
      → p (sql true) ≡ false
      → IsSafe (statement env f)
  unfolding statement ◌>>=◌
  IsSafe-statement env f up plain = record { at = λ w. rw (up w.log) (tt, rw plain (omega arith)) }
