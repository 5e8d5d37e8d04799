-- ===== src/Exposure/Brake.antt =====
-- The disables of a run of the brake.
use sentinel_soroban_v.Base.{
  ℕ, ◌+◌, ◌-◌, ◌/◌, ◌≤◌, max, String, Bool, true, false, Option, none, some, List, [], ◌∷◌, ◌≡◌,
  refl, if◌then◌else◌, leb, length, select, count, count-split, arith, Bool-cases, inl, inr,
}
use sentinel_soroban_v.World.{Event, routes_file}
use sentinel_soroban_v.World.Db.{ExposureRow}
use sentinel_soroban_v.World.Monad.{Env, World, FleetRoute, Note, push, pure, skip, ◌>>◌, or_raise}
use sentinel_soroban_v.World.Keeps.{Ends, framed_rules}
use sentinel_soroban_v.World.Answers.{Gives}
use sentinel_soroban_v.World.Cost.{
  Costs, Costs-Keeps, Costs-after, Costs-if, Costs-pure, Costs-weaken, Costs-catch, Costs-bind,
  Costs-then, Costs-push, Costs-or_raise, AtMost-IsFramed,
}
use sentinel_soroban_v.World.Debt.{
  Owes, IsSafe, Owes-free, Owes-pure, Owes-if, Owes-catch, Owes-bind, Owes-safe, IsSafe-catch,
  IsSafe-if, IsSafe-skip, IsSafe-push, Costs-Owes,
}
use sentinel_soroban_v.Interventions.Ledger.{compute_disable_cap}
use sentinel_soroban_v.Interventions.Executor.{claim_disable_slot, release_disable_slot}
use sentinel_soroban_v.Interventions.Disables.{
  is_disable, is_thrown, is_call, call_split, plain-is_disable, one_if, Free, Owes-pause_route,
}
use sentinel_soroban_v.Exposure.{Cutoffs, ExposureSignalSpec}
use sentinel_soroban_v.Exposure.Collector.{
  Reading, Affected, read_flights, read_exposure, record_exposure_history, note_elevated,
  pause_claimed, pause_affected, act_on, act_on_reading, measure_and_act, history_row,
}

module _ (env : Env) (up : (log : List Event) → env.sql_answers log ≡ true) where
  Free-claim : (cap : ℕ) → Free (claim_disable_slot env cap)
  unfolding claim_disable_slot
  Free-claim cap =
      Costs-Keeps _ _
        (λ n. search (framed_rules, AtMost-IsFramed is_disable plain-is_disable n) depth 14)

  IsSafe-release : IsSafe is_disable (release_disable_slot env)
  unfolding release_disable_slot
  IsSafe-release =
      IsSafe-if _ _ _ _
        (IsSafe-catch _ _ _
          (Costs-Keeps _ _
            (λ n. search (framed_rules, AtMost-IsFramed is_disable plain-is_disable n)))
          (λ e. IsSafe-skip _))
        (IsSafe-skip _)

  Owes-pause_claimed : (a : Affected) → Owes is_disable 0 one_if (pause_claimed env a)
  unfolding pause_claimed
  Owes-pause_claimed a =
      Owes-catch _ _ _
        (Owes-bind _ _ _ (Owes-pause_route env up a.route _ _ _) (λ result.
          Owes-safe _ _ _ (IsSafe-if _ _ _ _ (IsSafe-skip _) IsSafe-release)
            (λ u. Owes-safe _ _ _ (IsSafe-push _ _ _) (λ u. Owes-pure _ _ (omega arith)))))
        (λ e.
          Owes-safe _ _ _ IsSafe-release
            (λ u. Owes-safe _ _ _ (IsSafe-push _ _ _) (λ u. Owes-pure _ _ (omega arith))))

  -- a note, and no disable
  Owes-note :
      (f : Bool → ℕ) (flight : String) (note : Note)
      → Owes is_disable 0 f (push flight note >> pure false)
  Owes-note f flight note = Owes-safe _ _ _ (IsSafe-push _ _ _) (λ u. Owes-pure _ _ (omega arith))

  -- what the run may still disable
  abbrev budget : Bool → ℕ → ℕ → ℕ
  budget dry_run cap disables = if dry_run then 0 else cap - disables

  Costs-pause_affected :
      (dry_run : Bool) (cap disables : ℕ) (affected : List Affected)
      → Costs is_disable
          (budget dry_run cap disables)
          (pause_affected env dry_run cap disables affected)
  unfolding pause_affected skip
  Costs-pause_affected dry_run most disables [] = record { at = λ w. omega arith }
  Costs-pause_affected true most disables (a ∷ rest) =
      Costs-Owes is_disable {f = λ b. 0} _ _ (Owes-note _ _ _)
        (λ disabled. (0, omega arith, Costs-pause_affected true most _ rest))
  Costs-pause_affected false most disables (a ∷ rest) =
      let later : (b : Bool) → ℕ = λ b. if b then disables + 1 else disables in
      elim (Bool-cases (leb most disables)) [
        | inl spent ↦ rw spent (
            Costs-Owes is_disable {f = λ b. 0} _ _ (Owes-note _ _ _) (λ disabled. (
              most - later disabled,
              ground arith,
              Costs-pause_affected false most (later disabled) rest,
            )))
        | inr left ↦ rw left (
            Costs-Owes is_disable {f = one_if} _ _
              (Owes-bind is_disable {f = λ b. 0} _ _ (Owes-free _ _ (Free-claim most))
                (λ claimed. Owes-if _ _ _ _ (Owes-pause_claimed a) (Owes-note _ _ _)))
              (λ disabled. (
                most - later disabled,
                ground arith,
                Costs-pause_affected false most (later disabled) rest,
              )))
      ]

  Free-read_flights :
      (fleet : List FleetRoute) (active : List (String × ℕ)) (r : Reading)
      → Free (read_flights env fleet active r)
  unfolding read_flights
  Free-read_flights fleet [] r = Costs-pure _ r
  Free-read_flights fleet ((id, date) ∷ rest) r =
      Costs-after _ _ _
        (Costs-Keeps _ _
          (λ n. search (framed_rules, AtMost-IsFramed is_disable plain-is_disable n)))
        (λ cfg. Free-read_flights fleet rest _)

  Free-read_exposure : Free (read_exposure env)
  unfolding read_exposure
  Free-read_exposure = Costs-after _ _ _ (Costs-or_raise _ env.fleet routes_file) (λ fleet.
      Costs-after _ _ _
        (Costs-Keeps _ _
          (λ n. search (framed_rules, AtMost-IsFramed is_disable plain-is_disable n)))
        (λ total.
          Costs-after _ _ _
            (Costs-Keeps _ _
              (λ n. search (framed_rules, AtMost-IsFramed is_disable plain-is_disable n)))
            (λ active. Free-read_flights fleet active _)))

  Free-record_exposure_history : (row : ExposureRow) → Free (record_exposure_history env row)
  unfolding record_exposure_history
  Free-record_exposure_history row =
      Costs-Keeps _ _
        (λ n. search (framed_rules, AtMost-IsFramed is_disable plain-is_disable n) depth 14)

  Free-skip : Free skip
  unfolding skip
  Free-skip = record { at = λ w. omega arith }

  Free-note_elevated : (specs : List ExposureSignalSpec) → Free (note_elevated env specs)
  unfolding note_elevated
  Free-note_elevated [] = Free-skip
  Free-note_elevated (s ∷ rest) =
      Costs-after _ _ _ (Costs-if _ _ _ _ Free-skip (Costs-push _ _ _))
        (λ u. Free-note_elevated rest)

  module _ (fleet : List FleetRoute) (loaded : env.fleet ≡ some fleet) (dry_run : Bool) where
    -- the disables that a run may make
    abbrev allowance : ℕ
    allowance = if dry_run then 0 else compute_disable_cap (length (select (λ r. r.enabled) fleet))

    loaded-Gives : Ends (Gives fleet) (or_raise env.fleet routes_file)
    unfolding or_raise
    loaded-Gives = rw loaded (record { at = λ w. refl })

    within :
        (b : Bool)
        → budget b (compute_disable_cap (length (select (λ r. r.enabled) fleet))) 0 + 0
          ≤ (if b then 0 else compute_disable_cap (length (select (λ r. r.enabled) fleet)))
    within true = omega arith
    within false = omega arith

    Costs-act_on :
        (specs : List ExposureSignalSpec) → Costs is_disable allowance (act_on env dry_run specs)
    unfolding act_on
    Costs-act_on specs =
        Costs-if _ _ _ _
          (Costs-weaken _ {j = 0 + allowance} _ (omega arith) (
            Costs-then _ {k = allowance} _ _ (Costs-or_raise _ env.fleet routes_file) loaded-Gives
              (λ found w same.
                Costs-weaken _ _ (rw same (within dry_run)) (
                  Costs-bind _ _ _ (Costs-pause_affected dry_run _ 0 _) (λ u. Costs-pure _ true)))))
          (Costs-weaken _ _ (omega arith) (Costs-pure _ true))

    Costs-act_on_reading :
        (cut : Cutoffs) (r : Reading)
        → Costs is_disable allowance (act_on_reading env dry_run cut r)
    unfolding act_on_reading
    Costs-act_on_reading cut r =
        Costs-after _ _ _ (Free-record_exposure_history (history_row r)) (λ u.
          Costs-after _ _ _ (Costs-if _ _ _ _ (Costs-push _ _ _) Free-skip)
            (λ u. Costs-after _ _ _ (Free-note_elevated _) (λ u. Costs-act_on _)))

    Costs-on_reading :
        (cut : Cutoffs) (reading : Option Reading)
        → Costs is_disable allowance
            (elim reading [ none ↦ pure false | some r ↦ act_on_reading env dry_run cut r ])
    Costs-on_reading cut none = Costs-weaken _ _ (omega arith) (Costs-pure _ false)
    Costs-on_reading cut (some r) = Costs-act_on_reading cut r

    Costs-measure_and_act :
        (cut : Cutoffs) → Costs is_disable allowance (measure_and_act env dry_run cut)
    unfolding measure_and_act
    Costs-measure_and_act cut = Costs-weaken _ _ (omega arith) (
        Costs-catch _ _ _
          (Costs-after _ _ _
            (Costs-catch _ _ _ (Costs-bind _ _ _ Free-read_exposure (λ r. Costs-pure _ (some r)))
              (λ e. Costs-pure _ none))
            (λ reading. Costs-on_reading cut reading))
          (λ e. Costs-pure _ false))

-- The calls of a disable that returned.
abbrev pub disables : List Event → ℕ
disables log = count is_disable log

-- The calls of a disable that threw, each of which may have landed or not.
abbrev pub thrown_disables : List Event → ℕ
thrown_disables log = count is_thrown log

-- The calls of a disable, whether they returned or threw.
abbrev pub disable_calls : List Event → ℕ
disable_calls log = count is_call log

calls_lem : (log : List Event) → disable_calls log ≡ disables log + thrown_disables log
calls_lem log = count-split is_call is_disable is_thrown call_split log

-- With a routes file and a database that answers, whatever the chain answers and the signals are,
-- the calls of a disable that return in a run of the brake are at most its cap: three, or a fifth of
-- the enabled fleet rounded up, whichever is more, and none in a dry run. All its calls of one, those
-- that throw included (each of which may have landed or not), are at most that cap more than those
-- that throw.
pub measure_and_act-disables :
    (env : Env) (fleet : List FleetRoute) (dry_run : Bool) (cut : Cutoffs) (w : World)
    → ((log : List Event) → env.sql_answers log ≡ true)
    → env.fleet ≡ some fleet
    → let after = (measure_and_act env dry_run cut w).1.log in
      let cap = if dry_run then 0 else max 3 ((length (select (λ r. r.enabled) fleet) + 4) / 5) in
      (disables after ≤ disables w.log + cap)
      × (disable_calls after + thrown_disables w.log
          ≤ disable_calls w.log + cap + thrown_disables after)
unfolding compute_disable_cap
measure_and_act-disables env fleet dry_run cut w up loaded =
    let fits = (Costs-measure_and_act env up fleet loaded dry_run cut).at w in
    within_cap _ _ _ _ _ _ _ fits (calls_lem (measure_and_act env dry_run cut w).1.log)
      (calls_lem w.log)
  where
    within_cap :
        (cap done before thrown thrown_before calls calls_before : ℕ)
        → done ≤ before + cap
        → calls ≡ done + thrown
        → calls_before ≡ before + thrown_before
        → (done ≤ before + cap) × (calls + thrown_before ≤ calls_before + cap + thrown)
    within_cap cap done before thrown thrown_before calls calls_before fits a b =
        (fits, omega (arith, fits, a, b))
