-- ===== src/Classifier/Passes.antt =====
-- The passes of a run of the classifier.
use sentinel_soroban_v.Base.{
  ℕ, zero, suc, ◌+◌, ◌≡◌, refl, ap, false, some, List, ◌∷◌, ltb, arith, ◌==◌, ◌∙◌, ◌/◌, min, true,
  List, count, Bool,
}
use sentinel_soroban_v.World.{Event, clock, read, wrote, active_count, classify_flights}
use sentinel_soroban_v.World.Monad.{Env, World, ok, pure, now, catch, read_as, ◌>>=◌}
use sentinel_soroban_v.Soroban.Submission.{Takes, landed, invoke-landed}
use sentinel_soroban_v.Classifier.{
  passes_for, swept, classify_round, classify_passes, classify_set, run, time_budget_ms,
}

-- A pass whose transaction returned.
abbrev pub is_pass : Event → Bool
is_pass (wrote classify_flights done) = done
is_pass _ = false

-- The passes whose transaction returned.
abbrev pub passes_made : List Event → ℕ
passes_made log = count is_pass log

-- A run within its time, on a network that takes every transaction, over an active set that does not
-- change.
module _ (env : Env) (n : ℕ)
    (still : (log : List Event) → env.counter log active_count ≡ some (suc n))
    (in_time : (log later : List Event)
      → ltb (env.now log + time_budget_ms) (env.now later) ≡ false)
    (known : Takes env) where
  passes_lem :
      (left done : ℕ) (begun : List Event) (w : World)
      → let r = classify_passes env left (env.now begun) done w in
        (r.0 ≡ ok (done + left)) × (passes_made r.1.log ≡ passes_made w.log + left)
  unfolding classify_passes classify_round pure now ◌>>=◌
  passes_lem zero done begun w = (ap ok (omega arith), omega arith)
  passes_lem (suc left) done begun w =
      let seen : World = record w { log = clock (env.now w.log) ∷ w.log } in
      let (ended, made) = passes_lem left (done + 1) begun (landed classify_flights seen) in
      rw (in_time begun w.log, invoke-landed env known classify_flights seen)
        (ended ∙ ap ok (omega arith), omega (arith, made))

  -- The passes of a set of `n + 1` flights.
  abbrev all_passes : ℕ
  all_passes = min (n / 8 + 1) 12

  passes_for_lem : passes_for (suc n) ≡ all_passes
  unfolding passes_for
  passes_for_lem = omega arith

  set_lem :
      (begun : List Event) (w : World)
      → let r = classify_set env (env.now begun) (suc n) w in
        (r.0 ≡ ok (swept all_passes all_passes))
        × (passes_made r.1.log ≡ passes_made w.log + all_passes)
  unfolding classify_set pure ◌>>=◌
  set_lem begun w =
      let (ended, made) = passes_lem all_passes 0 begun w in
      let all_made : 0 + all_passes ≡ all_passes = omega arith in
      rw (some_flights n, passes_for_lem) (rw (ended ∙ ap ok all_made) (refl, made))
    where
      some_flights : (n : ℕ) → (suc n == 0) ≡ false
      some_flights n = ground arith

-- A run of the classifier over an active set of `n + 1` flights that stays the same, whose clocks stay
-- within the time budget of each other and on a network that takes every transaction: it reports
-- that it made all of its passes, one for every eight flights or part of eight and twelve at most, and
-- it has made them: so many transactions of a pass have returned.
pub run-swept :
    (env : Env) (n : ℕ) (w : World)
    → ((log : List Event) → env.counter log active_count ≡ some (suc n))
    → ((log later : List Event) → ltb (env.now log + time_budget_ms) (env.now later) ≡ false)
    → Takes env
    → let passes = min (n / 8 + 1) 12 in
      let r = run env w in
      (r.0 ≡ ok (swept passes passes)) × (passes_made r.1.log ≡ passes_made w.log + passes)
unfolding run now read_as ◌>>=◌ catch
run-swept env n w still in_time known =
    let begun : World = record w { log = clock (env.now w.log) ∷ w.log } in
    let counted : World = record begun { log = read active_count true ∷ begun.log } in
    let (ended, made) = set_lem env n still in_time known w.log counted in
    rw (still begun.log) (rw ended (refl, made))
