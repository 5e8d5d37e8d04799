-- ===== src/Ttl/Prune.antt =====
-- The drain loop of `prune_settled`.
use sentinel_soroban_v.Base.{ℕ, zero, suc, ◌+◌, ◌*◌, ◌≤◌, ◌≡◌, true, some, List, leb, arith}
use sentinel_soroban_v.World.{Event, active_count, prune_settled}
use sentinel_soroban_v.World.Monad.{Env, World, skip}
use sentinel_soroban_v.World.Keeps.{framed_rules}
use sentinel_soroban_v.World.Answers.{read_as-Gives}
use sentinel_soroban_v.World.Cost.{
  Costs, Costs-after, Costs-bind, Costs-if, Costs-then, Costs-weaken, Costs-Keeps, is_submission,
  submissions, submissions-IsFramed,
}
use sentinel_soroban_v.Soroban.Costs.{Costs-invoke}
use sentinel_soroban_v.Ttl.Rows.{max_passes}
use sentinel_soroban_v.Ttl.Extender.{read_count, prune_pass, prune_passes, prune_aged}

max_passes_le : (count : ℕ) → max_passes count ≤ 10
unfolding max_passes
max_passes_le count = omega arith

leb_self : (n : ℕ) → leb n n ≡ true
leb_self n = ground arith

module _ (env : Env) where
  Costs-skip : Costs is_submission 0 skip
  Costs-skip = Costs-Keeps _ _ (λ n. search (framed_rules, submissions-IsFramed))

  Costs-read_count : Costs is_submission 0 (read_count env)
  unfolding read_count
  Costs-read_count = Costs-Keeps _ _ (λ n. search (framed_rules, submissions-IsFramed))

  Costs-prune_passes :
      (left count : ℕ) → Costs is_submission (left * 2) (prune_passes env left count)
  unfolding prune_passes prune_pass
  Costs-prune_passes zero count = Costs-skip
  Costs-prune_passes (suc left) count = Costs-weaken _ _ (omega arith) (
      Costs-bind _ _ _ (Costs-invoke env prune_settled) (λ u.
        Costs-after _ _ _ Costs-read_count (λ next.
          Costs-if _ _ _ _ (Costs-weaken _ _ (omega arith) Costs-skip)
            (Costs-prune_passes left next))))

  Costs-prune_aged : Costs is_submission 20 (prune_aged env)
  unfolding prune_aged
  Costs-prune_aged = Costs-after _ _ _ Costs-read_count (λ count.
      Costs-weaken _ _ (omega (arith, max_passes_le count))
        (Costs-prune_passes (max_passes count) count))

  module _ (n : ℕ) (still : (log : List Event) → env.counter log active_count ≡ some n) where
    Costs-still : (left : ℕ) → Costs is_submission 2 (prune_passes env left n)
    unfolding prune_passes prune_pass read_count
    Costs-still zero = Costs-weaken _ _ (omega arith) Costs-skip
    Costs-still (suc left) = Costs-bind _ _ _ (Costs-invoke env prune_settled) (λ u.
        Costs-then _ {k = 0} _ _ Costs-read_count (read_as-Gives env active_count _ n still)
          (λ next w same. rw (same, leb_self n) Costs-skip))

    Costs-prune_still : Costs is_submission 2 (prune_aged env)
    unfolding prune_aged read_count
    Costs-prune_still =
        Costs-then _ {k = 2} _ _ Costs-read_count (read_as-Gives env active_count _ n still)
          (λ count w same. rw same (Costs-still (max_passes n)))

-- The drain loop sends 20 transactions at most, ten passes that are each sent twice at most, and one
-- pass only where the number of listed flights never changes.
prune_aged-submissions :
    (env : Env) (w : World)
    → (submissions (prune_aged env w).1.log ≤ submissions w.log + 20)
      × ((n : ℕ)
          → ((log : List Event) → env.counter log active_count ≡ some n)
          → submissions (prune_aged env w).1.log ≤ submissions w.log + 2)
prune_aged-submissions env w =
    ((Costs-prune_aged env).at w, λ n still. (Costs-prune_still env n still).at w)
