-- ===== src/Settler/Bounds.antt =====
-- The transactions of a run of the settler, at most, and how it stops.
use sentinel_soroban_v.Base.{
  ℕ, zero, suc, ◌+◌, ◌*◌, ◌≤◌, String, true, false, List, [], ◌∷◌, length, arith,
}
use sentinel_soroban_v.World.{execute_settlements_bounded}
use sentinel_soroban_v.World.Monad.{Env, World, M, Note, push, now}
use sentinel_soroban_v.World.Keeps.{framed_rules, Keeps-push}
use sentinel_soroban_v.World.Cost.{
  Costs, Costs-bind, Costs-catch, Costs-if, Costs-pure, Costs-weaken, Costs-Keeps, is_submission,
  submissions, submissions-IsFramed,
}
use sentinel_soroban_v.Soroban.Costs.{Costs-invoke}
use sentinel_soroban_v.Settler.{
  Drained, drained, gave_up, note_barrier, record_barrier_state, read_pending, classify_pass,
  bounded_window, bounded_windows, execute_pass, judge_pass, drain_pass, drain, close_run,
  settle_pending, run, pass_label,
}

abbrev pub Sends : {A : Type 0} → ℕ → M A → Type 0
Sends k m = Costs is_submission k m

module _ (env : Env) where
  pub Costs-push : (flight : String) (note : Note) → Sends 0 (push flight note)
  Costs-push flight note = Costs-Keeps _ _ (λ n. Keeps-push _ (submissions-IsFramed n) flight note)

  pub Costs-record_barrier_state : (pending : ℕ) → Sends 0 (record_barrier_state env pending)
  unfolding record_barrier_state note_barrier
  Costs-record_barrier_state pending =
      Costs-Keeps _ _ (λ n. search (framed_rules, submissions-IsFramed) depth 14)

  pub Costs-read_pending : Sends 0 (read_pending env)
  unfolding read_pending
  Costs-read_pending = Costs-Keeps _ _ (λ n. search (framed_rules, submissions-IsFramed))

  pub Costs-classify_pass : (label : String) → Sends 2 (classify_pass env label)
  unfolding classify_pass
  Costs-classify_pass label = Costs-catch _ _ _ (Costs-invoke env _) (λ e. Costs-push label _)

  Costs-bounded_windows :
      (label : String) (limits : List ℕ)
      → Sends (length limits * 2) (bounded_windows env label limits)
  unfolding bounded_windows bounded_window
  Costs-bounded_windows label [] = Costs-pure _ _
  Costs-bounded_windows label (limit ∷ rest) = Costs-weaken _ _ (omega arith) (
      Costs-catch _ _ _
        (Costs-bind _ _ _ (Costs-invoke env (execute_settlements_bounded limit))
          (λ u. Costs-bind _ _ _ (Costs-push label _) (λ u. Costs-pure _ true)))
        (λ e. Costs-bounded_windows label rest))

  pub Costs-execute_pass : (label : String) → Sends 6 (execute_pass env label)
  unfolding execute_pass
  Costs-execute_pass label = Costs-catch _ _ _ (Costs-invoke env _) (λ e.
      Costs-bind _ _ _ (Costs-bounded_windows label (3 ∷ 1 ∷ []))
        (λ bounded. Costs-Keeps _ _ (λ n. search (framed_rules, submissions-IsFramed))))

  Costs-judge_pass :
      {k : ℕ} (stalls pending next : ℕ) (go : ℕ → ℕ → M Drained)
      → ((s n : ℕ) → Sends k (go s n))
      → Sends k (judge_pass env stalls pending next go)
  unfolding judge_pass
  Costs-judge_pass stalls pending next go h =
      Costs-if _ _ _ _
        (Costs-if _ _ _ _
          (Costs-weaken _ _ (omega arith)
            (Costs-bind _ _ _ (Costs-push "-" _) (λ u. Costs-pure _ _)))
          (h (stalls + 1) next))
        (h 0 next)

  Costs-drain :
      (left pass stalls pending : ℕ) → Sends (left * 8) (drain env left pass stalls pending)
  unfolding drain drain_pass
  Costs-drain zero pass stalls pending = Costs-pure _ _
  Costs-drain (suc left) pass stalls pending =
      Costs-if _ _ _ _ (Costs-weaken _ _ (omega arith) (Costs-pure _ _)) (
        Costs-weaken _ _ (omega arith) (
          Costs-bind _ _ _ (Costs-classify_pass (pass_label pass)) (λ u.
            Costs-bind _ _ _ (Costs-execute_pass (pass_label pass)) (λ u.
              Costs-bind _ _ _ Costs-read_pending (λ next.
                Costs-judge_pass stalls pending next _ (λ s n. Costs-drain left (pass + 1) s n))))))

  pub Costs-close_run : (ended : Drained) → Sends 0 (close_run env ended)
  unfolding close_run
  Costs-close_run (drained pending) =
      Costs-bind _ _ _ (Costs-record_barrier_state pending)
        (λ u. Costs-bind _ _ _ (Costs-push "-" _) (λ u. Costs-pure _ _))
  Costs-close_run (gave_up pending) = Costs-pure _ _

  Costs-settle_pending : (pending : ℕ) → Sends 64 (settle_pending env pending)
  unfolding settle_pending
  Costs-settle_pending pending =
      Costs-if _ _ _ _
        (Costs-weaken _ _ (omega arith) (Costs-bind _ _ _ (Costs-push "-" _) (λ u. Costs-pure _ _)))
        (Costs-bind _ _ _ (Costs-drain 8 1 0 pending) Costs-close_run)

  pub Costs-now : Sends 0 (now env)
  Costs-now = Costs-Keeps _ _ (λ n. search (framed_rules, submissions-IsFramed))

  Costs-run : Sends 64 (run env)
  unfolding run
  Costs-run = Costs-bind _ _ _ Costs-now (λ start.
      Costs-catch _ _ _
        (Costs-bind _ _ _ Costs-read_pending (λ pending.
          Costs-bind _ _ _ (Costs-record_barrier_state pending)
            (λ u. Costs-settle_pending pending)))
        (λ e. Costs-pure _ false))

-- Whatever fails, a run of the settler sends 64 transactions at most: eight passes, each with a
-- classification, a settlement and two bounded windows, and each of these sent twice at most.
run-submissions : (env : Env) (w : World) → submissions (run env w).1.log ≤ submissions w.log + 64
run-submissions env w = (Costs-run env).at w
