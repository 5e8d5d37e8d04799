-- ===== src/Settler/Rising.antt =====
-- A count of pending outcomes that never goes down: what the steps of the settler keep of it.
use sentinel_soroban_v.Base.{ℕ, String, [], ◌≤◌, Bool, List, ◌∷◌, arith}
use sentinel_soroban_v.World.{Event, Call, submitted, wrote}
use sentinel_soroban_v.World.Monad.{Env, World, M}
use sentinel_soroban_v.World.Keeps.{Keeps, IsFramed, framed_rules}
use sentinel_soroban_v.Soroban.{invoke}
use sentinel_soroban_v.Soroban.Frame.{Admits, Keeps-invoke}
use sentinel_soroban_v.Settler.{
  note_barrier, record_barrier_state, classify_pass, bounded_window, bounded_windows, execute_pass,
}

-- At least `n` outcomes are pending.
unfoldable pub AtLeast : (List Event → ℕ) → ℕ → World → Type 0
AtLeast pending n w = n ≤ pending w.log

module _ (env : Env) (pending : List Event → ℕ)
    (rises : (e : Event) (log : List Event) → pending log ≤ pending (e ∷ log)) where
  AtLeast-IsFramed : (n : ℕ) → IsFramed (AtLeast pending n)
  unfolding AtLeast
  AtLeast-IsFramed n = record {
    logs = λ e w plain h. omega (arith, h, rises e w.log);
    acts = λ w v same h. rw same h;
  }

  AtLeast-Admits : (n : ℕ) (c : Call) → Admits (AtLeast pending n) c
  unfolding AtLeast
  AtLeast-Admits n c = record {
    sends = λ w h. omega (arith, h, rises (submitted c) w.log);
    ends = λ done w h. omega (arith, h, rises (wrote c done) w.log);
  }

  module _ (n : ℕ) where
    abbrev K : {A : Type 0} → M A → Type 0
    K m = Keeps (AtLeast pending n) m

    Keeps-invoked : (c : Call) → K (invoke env c)
    Keeps-invoked c = Keeps-invoke _ (AtLeast-IsFramed n) env c (AtLeast-Admits n c)

    pub Keeps-classify_pass : (label : String) → K (classify_pass env label)
    unfolding classify_pass
    Keeps-classify_pass label = search (framed_rules, AtLeast-IsFramed, Keeps-invoked) depth 9

    Keeps-bounded_window :
        (label : String) (limit : ℕ) (rest : M Bool)
        → K rest
        → K (bounded_window env label limit rest)
    unfolding bounded_window
    Keeps-bounded_window label limit rest k =
        search (framed_rules, AtLeast-IsFramed, Keeps-invoked) depth 12

    Keeps-bounded_windows :
        (label : String) (limits : List ℕ) → K (bounded_windows env label limits)
    unfolding bounded_windows
    Keeps-bounded_windows label [] = search framed_rules
    Keeps-bounded_windows label (limit ∷ rest) =
        Keeps-bounded_window label limit _ (Keeps-bounded_windows label rest)

    pub Keeps-execute_pass : (label : String) → K (execute_pass env label)
    unfolding execute_pass
    Keeps-execute_pass label =
        search (framed_rules, AtLeast-IsFramed, Keeps-invoked, Keeps-bounded_windows) depth 14

    pub Keeps-record_barrier_state : (p : ℕ) → K (record_barrier_state env p)
    unfolding record_barrier_state note_barrier
    Keeps-record_barrier_state p = search (framed_rules, AtLeast-IsFramed) depth 14
