-- ===== src/Settler/Stall.antt =====
-- A settler that makes no progress.
use sentinel_soroban_v.Base.{
  ℕ, suc, ◌+◌, ◌≤◌, ◌<◌, ◌≡◌, ◌≢◌, Bool, true, false, some, List, ◌∷◌, ◌==◌, leb, arith,
}
use sentinel_soroban_v.World.{Event, pending_outcomes, read, clock}
use sentinel_soroban_v.World.Monad.{
  Env, World, M, Result, ok, err, pure, ◌>>=◌, continue, handle, catch, now, read_as,
}
use sentinel_soroban_v.World.Keeps.{Keeps}
use sentinel_soroban_v.World.Cost.{submissions}
use sentinel_soroban_v.Settler.{
  Drained, drained, gave_up, record_barrier_state, read_pending, judge_pass, drain_pass, drain,
  close_run, settle_pending, run, pass_label,
}
use sentinel_soroban_v.Settler.Rising.{
  AtLeast, Keeps-classify_pass, Keeps-execute_pass, Keeps-record_barrier_state,
}
use sentinel_soroban_v.Settler.Bounds.{
  Sends, Costs-record_barrier_state, Costs-classify_pass, Costs-execute_pass,
}

-- No success, and so many transactions since `before` at most.
abbrev Stops : ℕ → ℕ → Result Bool × World → Type 0
Stops k before (ok true, w) = ⊥
Stops k before (ok false, w) = submissions w.log ≤ before + k
Stops k before (err e, w) = submissions w.log ≤ before + k

-- The same of a drain, which gives up.
abbrev Stalls : ℕ → ℕ → Result Drained × World → Type 0
Stalls k before (ok (drained n), w) = ⊥
Stalls k before (ok (gave_up n), w) = submissions w.log ≤ before + k
Stalls k before (err e, w) = submissions w.log ≤ before + k

module _ (env : Env) (pending : List Event → ℕ)
    (reads : (log : List Event) → env.counter log pending_outcomes ≡ some (pending log))
    (rises : (e : Event) (log : List Event) → pending log ≤ pending (e ∷ log)) where
  -- What a drain comes to in every world where at least `n` outcomes are pending.
  record DrainStalls (n k : ℕ) (m : M Drained) : Type 0 where
    at : (w : World) → n ≤ pending w.log → Stalls k (submissions w.log) (m w)

  Stalls-more :
      (j k before then_before : ℕ) (r : Result Drained × World)
      → then_before ≤ before + j
      → Stalls k then_before r
      → Stalls (j + k) before r
  Stalls-more j k before then_before (ok (gave_up n), w) le h = omega (arith, le, h)
  Stalls-more j k before then_before (ok (drained n), w) le h = h
  Stalls-more j k before then_before (err e, w) le h = omega (arith, le, h)

  -- a step before the rest of a drain
  DrainStalls-after :
      {A : Type 0} {n j k : ℕ} (m : M A) (f : A → M Drained)
      → Sends j m
      → Keeps (AtLeast pending n) m
      → ((a : A) → DrainStalls n k (f a))
      → DrainStalls n (j + k) (m >>= f)
  unfolding ◌>>=◌ AtLeast
  DrainStalls-after {A} {n} {j} {k} m f costs keeps rest = record {
    at = λ w h. go w (m w) (costs.at w) (keeps.at w h);
  }
    where
      go :
          (w : World) (r : Result A × World)
          → submissions r.1.log ≤ submissions w.log + j
          → n ≤ pending r.1.log
          → Stalls (j + k) (submissions w.log) (continue r.0 f r.1)
      go w (ok a, v) sent most = Stalls-more j k _ _ (f a v) sent ((rest a).at v most)
      go w (err e, v) sent most = omega (arith, sent)

  -- the read of what is pending, which is no less
  DrainStalls-read :
      {n k : ℕ} (f : ℕ → M Drained)
      → ((next : ℕ) → n ≤ next → DrainStalls next k (f next))
      → DrainStalls n k (read_pending env >>= f)
  unfolding read_pending read_as ◌>>=◌
  DrainStalls-read f rest = record {
    at = λ w h. rw (reads w.log) (
        (rest (pending w.log) h).at (record w { log = read pending_outcomes true ∷ w.log })
          (rises (read pending_outcomes true) w.log));
  }

  DrainStalls-pass :
      {n k : ℕ} (pass stalls : ℕ) (go : ℕ → ℕ → M Drained)
      → ((next : ℕ) → n ≤ next → DrainStalls next k (judge_pass env stalls n next go))
      → DrainStalls n (2 + (6 + k)) (drain_pass env pass stalls n go)
  unfolding drain_pass
  DrainStalls-pass {n} pass stalls go h =
      DrainStalls-after _ _ (Costs-classify_pass env (pass_label pass))
        (Keeps-classify_pass env pending rises n _)
        (λ u.
          DrainStalls-after _ _ (Costs-execute_pass env (pass_label pass))
            (Keeps-execute_pass env pending rises n _) (λ u. DrainStalls-read _ h))

  leb_lem : {a b : ℕ} → a ≤ b → leb a b ≡ true
  leb_lem le = ground (arith, le)

  some_lem : (n : ℕ) → 0 < n → (n == 0) ≡ false
  some_lem n full = ground (arith, full)

  judge_second :
      {n : ℕ} (go : ℕ → ℕ → M Drained) (next : ℕ)
      → n ≤ next
      → DrainStalls next 0 (judge_pass env 1 n next go)
  unfolding judge_pass ◌>>=◌ pure
  judge_second go next le = record { at = λ w h. rw (leb_lem le) (omega arith) }

  second_pass : {n : ℕ} (left : ℕ) → 0 < n → DrainStalls n 8 (drain env (suc left) 2 1 n)
  unfolding drain
  second_pass {n} left full = rw (some_lem n full) (DrainStalls-pass 2 1 _ (judge_second _))

  judge_first :
      {n k : ℕ} (go : ℕ → ℕ → M Drained) (next : ℕ)
      → n ≤ next
      → DrainStalls next k (go 1 next)
      → DrainStalls next k (judge_pass env 0 n next go)
  unfolding judge_pass
  judge_first go next le h = rw (leb_lem le) h

  first_pass : {n : ℕ} (left : ℕ) → 0 < n → DrainStalls n 16 (drain env (suc (suc left)) 1 0 n)
  unfolding drain
  first_pass {n} left full = rw (some_lem n full) (
      DrainStalls-pass 1 0 _
        (λ next le. judge_first _ next le (second_pass left (omega (arith, full, le)))))

  settle_pending-Stops :
      {n : ℕ} (w : World)
      → 0 < n
      → n ≤ pending w.log
      → Stops 16 (submissions w.log) (settle_pending env n w)
  unfolding settle_pending ◌>>=◌ close_run pure
  settle_pending-Stops {n} w full most =
      rw (some_lem n full) (closed _ ((first_pass 6 full).at w most))
    where
      closed :
          (r : Result Drained × World)
          → Stalls 16 (submissions w.log) r
          → Stops 16 (submissions w.log) (continue r.0 (close_run env) r.1)
      closed (ok (gave_up n), v) h = h
      closed (ok (drained n), v) h = absurd h
      closed (err e, v) h = h

  run_lem : (w : World) → 0 < pending w.log → Stops 16 (submissions w.log) (run env w)
  unfolding run now read_pending read_as catch ◌>>=◌ pure AtLeast
  run_lem w full =
      let begun : World = record w { log = clock (env.now w.log) ∷ w.log } in
      let seen : World = record w { log = read pending_outcomes true ∷ begun.log } in
      let n = pending begun.log in
      let more : 0 < n = omega (arith, full, rises (clock (env.now w.log)) w.log) in
      rw (reads begun.log) (
        settled n begun more (record_barrier_state env n seen)
          ((Costs-record_barrier_state env n).at seen)
          ((Keeps-record_barrier_state env pending rises n n).at seen
            (rises (read pending_outcomes true) begun.log)))
    where
      recovered :
          (k before : ℕ) (r : Result Bool × World)
          → Stops k before r
          → Stops k before (handle r.0 (λ e. pure false) r.1)
      recovered k before (ok true, v) h = h
      recovered k before (ok false, v) h = h
      recovered k before (err e, v) h = h

      lower :
          (k before later : ℕ) (r : Result Bool × World)
          → later ≤ before + 0
          → Stops k later r
          → Stops k before r
      lower k before later (ok true, v) le h = h
      lower k before later (ok false, v) le h = omega (arith, le, h)
      lower k before later (err e, v) le h = omega (arith, le, h)

      settled :
          (n : ℕ) (begun : World)
          → 0 < n
          → (r : Result Unit × World) → submissions r.1.log ≤ submissions begun.log + 0
          → n ≤ pending r.1.log
          → let q = continue r.0 (λ u. settle_pending env n) r.1 in
            Stops 16 (submissions begun.log) (handle q.0 (λ e. pure false) q.1)
      settled n begun more (ok u, v) sent most =
          recovered 16 _ (settle_pending env n v)
            (lower 16 _ _ _ sent (settle_pending-Stops v more most))
      settled n begun more (err e, v) sent most = omega (arith, sent)

-- A settler whose count of pending outcomes is positive and never goes down, whatever it sends and
-- whatever else fails, sends 16 transactions at most and does not report success.
pub run-stalled :
    (env : Env) (pending : List Event → ℕ) (w : World)
    → ((log : List Event) → env.counter log pending_outcomes ≡ some (pending log))
    → ((e : Event) (log : List Event) → pending log ≤ pending (e ∷ log))
    → 0 < pending w.log
    → (submissions (run env w).1.log ≤ submissions w.log + 16) × ((run env w).0 ≢ ok true)
run-stalled env pending w reads rises full =
    stopped (run env w) (run_lem env pending reads rises w full)
  where
    stopped :
        (r : Result Bool × World)
        → Stops 16 (submissions w.log) r
        → (submissions r.1.log ≤ submissions w.log + 16) × (r.0 ≢ ok true)
    stopped (ok true, v) h = absurd h
    stopped (ok false, v) h = (h, λ same. cc)
    stopped (err e, v) h = (h, λ same. cc)
