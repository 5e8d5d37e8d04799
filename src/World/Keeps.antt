-- ===== src/World/Keeps.antt =====
-- Rules for what actions keep: one for each way to build an action.
mod Outcomes
pub use Outcomes.*
use sentinel_soroban_v.Base.{
  ℕ, String, ◌≡◌, refl, Bool, true, false, Option, none, some, List, ◌∷◌, if◌then◌else◌,
}
use sentinel_soroban_v.World.Events.{Event, Failure, Request, Query, clock, slept, submitted, wrote}
use sentinel_soroban_v.World.Db.{Db}
use sentinel_soroban_v.World.Monad.{
  Env, World, Note, Result, ok, err, M, pure, skip, raise, gets, or_raise, emit, push,
  set_quota_exhausted, set_deadline, modify_db, continue, handle, ◌>>=◌, catch, now, sleep,
  fetch_flights, fetch_schedules, read_as, query, statement, query_at, statement_at, returned,
  returning,
}

-- An action after which `P` holds again where it held before, after an exception too.
pub record Keeps {A : Type 0} (P : World → Type 0) (m : M A) : Type 0 where
  pub at : (w : World) → P w → P (m w).1

-- What holds once an action ends.
abbrev pub Post : {A : Type 0} → (A → World → Type 0) → (World → Type 0) → Result A × World → Type 0
Post Q E (ok a, w) = Q a w
Post Q E (err e, w) = E w

pub record Triple {A : Type 0} (P : World → Type 0) (m : M A) (Q : A → World → Type 0)
    (E : World → Type 0) : Type 0 where
  pub at : (w : World) → P w → Post Q E (m w)

-- The events that are no transactions.
abbrev pub IsPlain : Event → Type 0
IsPlain (submitted c) = ⊥
IsPlain (wrote c done) = ⊥
IsPlain _ = Unit

-- A predicate that only transactions can break.
pub record IsFramed (P : World → Type 0) : Type 0 where
  pub logs : (e : Event) (w : World) → IsPlain e → P w → P (record w { log = e ∷ w.log })
  pub acts : (w v : World) → v.log ≡ w.log → P w → P v

module _ {A : Type 0} {P : World → Type 0} where
  pub Keeps-pure : (a : A) → Keeps P (pure a)
  unfolding pure
  Keeps-pure a = record { at = λ w h. h }

  pub Keeps-raise : (e : Failure) → Keeps P (raise {A = A} e)
  unfolding raise
  Keeps-raise e = record { at = λ w h. h }

  pub Keeps-or_raise : (o : Option A) (e : Failure) → Keeps P (or_raise o e)
  unfolding or_raise
  Keeps-or_raise none e = record { at = λ w h. h }
  Keeps-or_raise (some a) e = record { at = λ w h. h }

  pub Keeps-gets : (f : World → A) → Keeps P (gets f)
  unfolding gets
  Keeps-gets f = record { at = λ w h. h }

  Keeps-handle :
      (r : Result A) (h : Failure → M A) → ((e : Failure) → Keeps P (h e)) → Keeps P (handle r h)
  Keeps-handle (ok a) h kh = record { at = λ w p. p }
  Keeps-handle (err e) h kh = record { at = λ w p. (kh e).at w p }

  pub Keeps-catch :
      (m : M A) (h : Failure → M A)
      → Keeps P m
      → ((e : Failure) → Keeps P (h e))
      → Keeps P (catch m h)
  unfolding catch
  Keeps-catch m h km kh = record {
    at = λ w p. let (r, w') = m w in (Keeps-handle r h kh).at w' (km.at w p);
  }

  -- Each branch of a test may use how the test came out.
  pub Keeps-if :
      (test : Bool) (then_part else_part : M A)
      → (test ≡ true → Keeps P then_part)
      → (test ≡ false → Keeps P else_part)
      → Keeps P (if test then then_part else else_part)
  Keeps-if true then_part else_part h k = h refl
  Keeps-if false then_part else_part h k = k refl

  pub Triple-Keeps :
      (m : M A) {Q : A → World → Type 0}
      → Triple P m Q P
      → ((a : A) (w : World) → Q a w → P w)
      → Keeps P m
  Triple-Keeps m {Q} t weaken = record { at = λ w p. go (m w) (t.at w p) }
    where
      go : (r : Result A × World) → Post Q P r → P r.1
      go (ok a, w) q = weaken a w q
      go (err e, w) q = q

module _ {A B : Type 0} {P : World → Type 0} where
  Keeps-continue : (r : Result A) (f : A → M B) → ((a : A) → Keeps P (f a)) → Keeps P (continue r f)
  Keeps-continue (ok a) f kf = record { at = λ w p. (kf a).at w p }
  Keeps-continue (err e) f kf = record { at = λ w p. p }

  pub Keeps-bind :
      (m : M A) (f : A → M B) → Keeps P m → ((a : A) → Keeps P (f a)) → Keeps P (m >>= f)
  unfolding ◌>>=◌
  Keeps-bind m f km kf = record {
    at = λ w p. let (r, w') = m w in (Keeps-continue r f kf).at w' (km.at w p);
  }

  -- The rest of a block may use what its beginning has found.
  pub Triple-bind :
      (m : M A) (f : A → M B) {Q : A → World → Type 0}
      → Triple P m Q P
      → ((a : A) (w : World) → Q a w → P (f a w).1)
      → Keeps P (m >>= f)
  unfolding ◌>>=◌
  Triple-bind m f {Q} tm kf = record { at = λ w p. go (m w) (tm.at w p) }
    where
      go : (r : Result A × World) → Post Q P r → P (continue r.0 f r.1).1
      go (ok a, w) q = kf a w q
      go (err e, w) q = q

module _ {P : World → Type 0} where
  pub Keeps-skip : Keeps P skip
  unfolding skip
  Keeps-skip = record { at = λ w h. h }

module _ {A B : Type 0} {P : World → Type 0} {R : Result A × World → Type 0} where
  -- What the beginning of a block ends with may be what its rest needs.
  pub Keeps-then :
      (m : M A) (f : A → M B)
      → Keeps P m
      → Ends R m
      → ((a : A) (w : World) → P w → R (ok a, w) → P (f a w).1)
      → Keeps P (m >>= f)
  unfolding ◌>>=◌
  Keeps-then m f km em kf = record { at = λ w p. go (m w) (km.at w p) (em.at w) }
    where
      go : (r : Result A × World) → P r.1 → R r → P (continue r.0 f r.1).1
      go (ok a, w) p q = kf a w p q
      go (err e, w) p q = p

-- A block ends as its rest does from where its beginning leads.
module _ {A B : Type 0} {P : World → Type 0} {R : Result A × World → Type 0}
    {S : Result B × World → Type 0} where
  pub Keeps-Ends :
      (m : M A) (f : A → M B)
      → IsLax S
      → Keeps P m
      → Ends R m
      → ((a : A) (w : World) → P w → R (ok a, w) → S (f a w))
      → (w : World) → P w
      → S ((m >>= f) w)
  unfolding ◌>>=◌
  Keeps-Ends m f lax km em kf w p = go (m w) (km.at w p) (em.at w)
    where
      go : (r : Result A × World) → P r.1 → R r → S (continue r.0 f r.1)
      go (ok a, w) p q = kf a w p q
      go (err e, w) p q = lax.errs e w

pub ruleset keeps_rules = (
  Keeps-pure, Keeps-raise, Keeps-gets, Keeps-or_raise, Keeps-if, Keeps-catch, Keeps-bind,
  Keeps-skip,
)

module _ (P : World → Type 0) (framed : IsFramed P) where
  pub Keeps-emit : (e : Event) → IsPlain e → Keeps P (emit e)
  unfolding emit
  Keeps-emit e plain = record { at = λ w h. framed.logs e w plain h }

  pub Keeps-push : (flight : String) (note : Note) → Keeps P (push flight note)
  unfolding push
  Keeps-push flight note = record { at = λ w h. framed.acts w _ refl h }

  pub Keeps-set_quota_exhausted : Keeps P set_quota_exhausted
  unfolding set_quota_exhausted
  Keeps-set_quota_exhausted = record { at = λ w h. framed.acts w _ refl h }

  pub Keeps-set_deadline : (ms : ℕ) → Keeps P (set_deadline ms)
  unfolding set_deadline
  Keeps-set_deadline ms = record { at = λ w h. framed.acts w _ refl h }

  pub Keeps-modify_db : (f : Db → Db) → Keeps P (modify_db f)
  unfolding modify_db
  Keeps-modify_db f = record { at = λ w h. framed.acts w _ refl h }

  pub Keeps-now : (env : Env) → Keeps P (now env)
  unfolding now ◌>>=◌
  Keeps-now env = record { at = λ w h. framed.logs (clock (env.now w.log)) w tt h }

  pub Keeps-sleep : (env : Env) (ms : ℕ) → Keeps P (sleep env ms)
  unfolding sleep ◌>>=◌
  Keeps-sleep env ms = record { at = λ w h. framed.logs (slept ms) w tt h }

  pub Keeps-fetch_flights : (env : Env) (r : Request) → Keeps P (fetch_flights env r)
  unfolding fetch_flights ◌>>=◌
  Keeps-fetch_flights env r = record { at = λ w h. framed.logs _ w tt h }

  pub Keeps-fetch_schedules : (env : Env) (r : Request) → Keeps P (fetch_schedules env r)
  unfolding fetch_schedules ◌>>=◌
  Keeps-fetch_schedules env r = record { at = λ w h. framed.logs _ w tt h }

  pub Keeps-read_as :
      {A : Type 0} (env : Env) (q : Query) (answer : List Event → Option A)
      → Keeps P (read_as env q answer)
  unfolding read_as
  Keeps-read_as env q answer = search (keeps_rules, Keeps-emit)

  pub Keeps-query : {A : Type 0} (env : Env) (f : Db → A) → Keeps P (query env f)
  unfolding query
  Keeps-query env f = search (keeps_rules, Keeps-emit)

  pub Keeps-statement : (env : Env) (f : Db → Db) → Keeps P (statement env f)
  unfolding statement
  Keeps-statement env f = search (keeps_rules, Keeps-emit, Keeps-modify_db)

  pub Keeps-query_at : {A : Type 0} (env : Env) (f : ℕ → Db → A) → Keeps P (query_at env f)
  unfolding query_at
  Keeps-query_at env f = search (keeps_rules, Keeps-query)

  pub Keeps-statement_at : (env : Env) (f : ℕ → Db → Db) → Keeps P (statement_at env f)
  unfolding statement_at
  Keeps-statement_at env f = search (keeps_rules, Keeps-statement)

  Keeps-returned : {A : Type 0} (g : Db → A × Db) → Keeps P (returned g)
  unfolding returned
  Keeps-returned g = record { at = λ w h. framed.acts w _ refl h }

  pub Keeps-returning : {A : Type 0} (env : Env) (f : ℕ → Db → A × Db) → Keeps P (returning env f)
  unfolding returning
  Keeps-returning env f = search (keeps_rules, Keeps-emit, Keeps-returned) depth 12

pub ruleset framed_rules = (
  keeps_rules, Keeps-emit, Keeps-push, Keeps-set_quota_exhausted, Keeps-set_deadline,
  Keeps-modify_db, Keeps-now, Keeps-sleep, Keeps-fetch_flights, Keeps-fetch_schedules,
  Keeps-read_as, Keeps-query, Keeps-statement, Keeps-query_at, Keeps-statement_at, Keeps-returning,
)
