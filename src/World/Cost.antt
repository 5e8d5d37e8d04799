-- ===== src/World/Cost.antt =====
-- How many events of a kind an action adds to the log, at most.
use sentinel_soroban_v.Base.{
  String, Option, none, some, ℕ, ◌+◌, ◌≤◌, Bool, true, false, List, ◌≡◌, refl, arith, count,
  if◌then◌else◌,
}
use sentinel_soroban_v.World.Events.{
  Event, Call, Failure, submitted, got_flights, got_schedules, wrote,
}
use sentinel_soroban_v.World.Monad.{
  World, Result, ok, err, M, pure, raise, gets, emit, continue, handle, ◌>>=◌, catch, Note, push,
  set_quota_exhausted, set_deadline, or_raise,
}
use sentinel_soroban_v.World.Keeps.{Keeps, Ends, IsPlain, IsFramed}

abbrev pub is_submission : Event → Bool
is_submission (submitted c) = true
is_submission _ = false

-- How many transactions were sent.
abbrev pub submissions : List Event → ℕ
submissions log = count is_submission log

abbrev pub is_fetch : Event → Bool
is_fetch (got_flights r a) = true
is_fetch (got_schedules r a) = true
is_fetch _ = false

-- How many requests were sent to AeroAPI.
abbrev pub fetches : List Event → ℕ
fetches log = count is_fetch log

module _ (p : Event → Bool) where
  -- `m` adds `k` events of the kind at most, whether it returns or throws.
  pub record Costs {A : Type 0} (k : ℕ) (m : M A) : Type 0 where
    pub at : (w : World) → count p (m w).1.log ≤ count p w.log + k

  module _ {A : Type 0} where
    pub Costs-weaken : {j k : ℕ} (m : M A) → j ≤ k → Costs j m → Costs k m
    Costs-weaken m le h = record { at = λ w. omega (arith, h.at w) }

    pub Costs-pure : (a : A) → Costs 0 (pure a)
    unfolding pure
    Costs-pure a = record { at = λ w. omega arith }

    pub Costs-raise : (e : Failure) → Costs 0 (raise {A = A} e)
    unfolding raise
    Costs-raise e = record { at = λ w. omega arith }

    pub Costs-gets : (f : World → A) → Costs 0 (gets f)
    unfolding gets
    Costs-gets f = record { at = λ w. omega arith }

    pub Costs-if :
        {k : ℕ} (b : Bool) (m n : M A) → Costs k m → Costs k n → Costs k (if b then m else n)
    Costs-if true m n hm hn = hm
    Costs-if false m n hm hn = hn

    Costs-handle :
        {k : ℕ} (r : Result A) (h : Failure → M A)
        → ((e : Failure) → Costs k (h e))
        → Costs k (handle r h)
    Costs-handle (ok a) h kh = record { at = λ w. omega arith }
    Costs-handle (err e) h kh = record { at = λ w. (kh e).at w }

    pub Costs-catch :
        {j k : ℕ} (m : M A) (h : Failure → M A)
        → Costs j m
        → ((e : Failure) → Costs k (h e))
        → Costs (j + k) (catch m h)
    unfolding catch
    Costs-catch m h km kh = record {
      at = λ w. let (r, w') = m w in omega (arith, km.at w, (Costs-handle r h kh).at w');
    }

  module _ {A B : Type 0} where
    Costs-continue :
        {k : ℕ} (r : Result A) (f : A → M B) → ((a : A) → Costs k (f a)) → Costs k (continue r f)
    Costs-continue (ok a) f kf = record { at = λ w. (kf a).at w }
    Costs-continue (err e) f kf = record { at = λ w. omega arith }

    pub Costs-bind :
        {j k : ℕ} (m : M A) (f : A → M B)
        → Costs j m
        → ((a : A) → Costs k (f a))
        → Costs (j + k) (m >>= f)
    unfolding ◌>>=◌
    Costs-bind m f km kf = record {
      at = λ w. let (r, w') = m w in omega (arith, km.at w, (Costs-continue r f kf).at w');
    }

  -- A beginning that costs nothing.
  pub Costs-after :
      {A B : Type 0} {k : ℕ} (m : M A) (f : A → M B)
      → Costs 0 m
      → ((a : A) → Costs k (f a))
      → Costs k (m >>= f)
  Costs-after m f km kf = Costs-weaken (m >>= f) (omega arith) (Costs-bind m f km kf)

  -- The rest of a block may use what its beginning returns.
  pub Costs-then :
      {A B : Type 0} {R : Result A × World → Type 0} {j k : ℕ} (m : M A) (f : A → M B)
      → Costs j m
      → Ends R m
      → ((a : A) (w : World) → R (ok a, w) → Costs k (f a))
      → Costs (j + k) (m >>= f)
  unfolding ◌>>=◌
  Costs-then {A} {B} {R} {j} {k} m f km em kf = record {
    at = λ w. go (count p w.log) (m w) (km.at w) (em.at w);
  }
    where
      go :
          (n : ℕ) (r : Result A × World)
          → count p r.1.log ≤ n + j
          → R r
          → count p (continue r.0 f r.1).1.log ≤ n + (j + k)
      go n (ok a, w) le q = omega (arith, (kf a w q).at w)
      go n (err e, w) le q = omega arith

  -- the logs with `n` events of the kind at most
  unfoldable pub AtMost : ℕ → World → Type 0
  AtMost n w = count p w.log ≤ n

  pub Costs-Keeps : {A : Type 0} (m : M A) → ((n : ℕ) → Keeps (AtMost n) m) → Costs 0 m
  unfolding AtMost
  Costs-Keeps m h = record { at = λ w. omega (arith, (h (count p w.log)).at w (omega arith)) }

  pub AtMost-IsFramed : ((e : Event) → IsPlain e → p e ≡ false) → (n : ℕ) → IsFramed (AtMost n)
  unfolding AtMost
  AtMost-IsFramed plain n = record {
    logs = λ e w q h. rw (plain e q) h;
    acts = λ w v same h. rw same h;
  }

pub Costs-emit : (p : Event → Bool) (e : Event) → Costs p 1 (emit e)
unfolding emit
Costs-emit p e = record { at = λ w. ground arith }

pub plain-is_submission : (e : Event) → IsPlain e → is_submission e ≡ false
plain-is_submission (submitted c) h = absurd h
plain-is_submission (wrote c done) h = absurd h
plain-is_submission _ h = refl

pub submissions-IsFramed : (n : ℕ) → IsFramed (AtMost is_submission n)
submissions-IsFramed = AtMost-IsFramed is_submission plain-is_submission

pub wrote-Costs : (c : Call) (done : Bool) → Costs is_submission 0 (emit (wrote c done))
unfolding emit
wrote-Costs c done = record { at = λ w. omega arith }

-- events of another kind cost nothing
pub Costs-emit_other : (p : Event → Bool) (e : Event) → p e ≡ false → Costs p 0 (emit e)
unfolding emit
Costs-emit_other p e other = record { at = λ w. ground arith }

pub Costs-push : (p : Event → Bool) (flight : String) (note : Note) → Costs p 0 (push flight note)
unfolding push
Costs-push p flight note = record { at = λ w. omega arith }

pub Costs-set_quota_exhausted : (p : Event → Bool) → Costs p 0 set_quota_exhausted
unfolding set_quota_exhausted
Costs-set_quota_exhausted p = record { at = λ w. omega arith }

pub Costs-set_deadline : (p : Event → Bool) (ms : ℕ) → Costs p 0 (set_deadline ms)
unfolding set_deadline
Costs-set_deadline p ms = record { at = λ w. omega arith }

pub Costs-or_raise :
    {A : Type 0} (p : Event → Bool) (o : Option A) (e : Failure) → Costs p 0 (or_raise o e)
unfolding or_raise
Costs-or_raise p none e = record { at = λ w. omega arith }
Costs-or_raise p (some a) e = record { at = λ w. omega arith }
