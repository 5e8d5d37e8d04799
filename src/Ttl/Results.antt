-- ===== src/Ttl/Results.antt =====
-- What a run of the TTL job returns.
use sentinel_soroban_v.Base.{
  ℕ, String, Bool, true, false, List, [], ◌∷◌, ◌++◌, ◌≡◌, refl, ap, ◌∙◌, map, if◌then◌else◌,
}
use sentinel_soroban_v.World.{Failure}
use sentinel_soroban_v.World.Monad.{
  Env, World, M, Result, ok, err, pure, continue, handle, catch, now, ◌>>=◌,
}
use sentinel_soroban_v.Ttl.Rows.{TtlResult, done, failure, contracts}
use sentinel_soroban_v.Ttl.Extender.{
  as_result, extend_contracts, sweep_expired_claims, extend_idle_persistent_keys, run,
}

abbrev Good : {A : Type 0} → (A → Type 0) → Result A × World → Type 0
Good Q (ok a, w) = Q a
Good Q (err e, w) = ⊥

-- An action that never throws, and what it returns.
record Returns {A : Type 0} (Q : A → Type 0) (m : M A) : Type 0 where
  at : (w : World) → Good Q (m w)

Any : {A : Type 0} → A → Type 0
Any a = Unit

module _ {A : Type 0} {Q : A → Type 0} where
  Returns-pure : (a : A) → Q a → Returns Q (pure a)
  unfolding pure
  Returns-pure a q = record { at = λ w. q }

  Returns-if : (b : Bool) (m n : M A) → Returns Q m → Returns Q n → Returns Q (if b then m else n)
  Returns-if true m n hm hn = hm
  Returns-if false m n hm hn = hn

  Returns-bind :
      {B : Type 0} {R : B → Type 0} (m : M A) (f : A → M B)
      → Returns Q m
      → ((a : A) → Q a → Returns R (f a))
      → Returns R (m >>= f)
  unfolding ◌>>=◌
  Returns-bind {B} {R} m f hm hf = record { at = λ w. go (m w) (hm.at w) }
    where
      go : (r : Result A × World) → Good Q r → Good R (continue r.0 f r.1)
      go (ok a, w) q = (hf a q).at w
      go (err e, w) q = absurd q

-- what is caught never matters
Returns-catch :
    {A : Type 0} (m : M A) (h : Failure → M A)
    → ((e : Failure) → Returns Any (h e))
    → Returns Any (catch m h)
unfolding catch Any
Returns-catch {A} m h hh = record { at = λ w. go (m w) }
  where
    go : (r : Result A × World) → Good Any (handle r.0 h r.1)
    go (ok a, w) = tt
    go (err e, w) = (hh e).at w

abbrev names : List TtlResult → List String
names results = map (λ r. r.contract) results

Returns-as_result :
    (env : Env) (name : String) (m : M Unit)
    → Returns (λ r. r.contract ≡ name) (as_result env name m)
unfolding as_result catch ◌>>=◌ pure
Returns-as_result env name m = record { at = λ w. go (m w) }
  where
    go :
        (r : Result Unit × World)
        → Good
            (λ r. r.contract ≡ name)
            (let (x, w) = continue r.0 (λ u. pure (done name)) r.1 in
              handle x (λ e. pure (failure name)) w)
    go (ok u, w) = refl
    go (err e, w) = refl

Returns-extend_contracts :
    (env : Env) (contracts : List String)
    → Returns (λ rs. names rs ≡ contracts) (extend_contracts env contracts)
unfolding extend_contracts
Returns-extend_contracts env [] = Returns-pure [] refl
Returns-extend_contracts env (name ∷ rest) = Returns-bind _ _ (Returns-as_result env name _) (λ r q.
    Returns-bind _ _ (Returns-extend_contracts env rest)
      (λ rs qs. Returns-pure (r ∷ rs) (rw (q, qs) refl)))

Returns-now : (env : Env) → Returns Any (now env)
unfolding now ◌>>=◌ Any
Returns-now env = record { at = λ w. tt }

names-append :
    (rs : List TtlResult) (more : List TtlResult) → names (rs ++ more) ≡ names rs ++ names more
names-append [] more = refl
names-append (r ∷ rs) more = ap (λ ks. r.contract ∷ ks) (names-append rs more)

abbrev pub prune_name : String
prune_name = "OracleAggregator.prune_settled"

module _ (env : Env) where
  Returns-sweep : Returns Any (sweep_expired_claims env)
  unfolding sweep_expired_claims Any
  Returns-sweep =
      Returns-if _ _ _ (Returns-catch _ _ (λ e. Returns-pure [] tt)) (Returns-pure [] tt)

  Returns-keys : (start : ℕ) → Returns Any (extend_idle_persistent_keys env start)
  unfolding extend_idle_persistent_keys Any
  Returns-keys start =
      Returns-if _ _ _ (Returns-catch _ _ (λ e. Returns-pure _ tt)) (Returns-pure [] tt)

  Begins : List TtlResult → Type 0
  Begins results = (rest : List String) × (names results ≡ contracts ++ prune_name ∷ rest)

  Returns-run : Returns Begins (run env)
  unfolding run Begins
  Returns-run = Returns-bind _ _ (Returns-now env) (λ start u.
      Returns-bind _ _ (Returns-extend_contracts env contracts) (λ instances same.
        Returns-bind _ _ (Returns-as_result env prune_name _) (λ pruned called.
          Returns-bind _ _ Returns-sweep (λ swept u.
            Returns-bind _ _ (Returns-keys start) (λ keys u. Returns-pure _ (
              names (swept ++ keys),
              names-append instances (pruned ∷ (swept ++ keys)) ∙ (rw (same, called) refl),
            ))))))

-- Whatever the clock, the network and the database answer, a run of the TTL job returns, and its
-- results begin with one for each of the five contracts, in their order, and one for the prune.
pub run-results :
    (env : Env) (w : World)
    → (results : List TtlResult) × (((run env w).0 ≡ ok results)
        × ((rest : List String) × (map (λ r. r.contract) results
              ≡ contracts ++ "OracleAggregator.prune_settled" ∷ rest)))
unfolding Begins
run-results env w = go (run env w) ((Returns-run env).at w)
  where
    go :
        (r : Result (List TtlResult) × World)
        → Good (Begins env) r
        → (results : List TtlResult) × ((r.0 ≡ ok results)
            × ((rest : List String) × (map (λ r. r.contract) results
                  ≡ contracts ++ "OracleAggregator.prune_settled" ∷ rest)))
    go (ok results, w) q = (results, (refl, q))
    go (err e, w) q = absurd q
