-- ===== src/Ttl/Unswept.antt =====
-- Which flights a run of the TTL job sweeps.
use sentinel_soroban_v.Base.{
  ℕ, zero, suc, ◌/◌, String, Bool, true, false, ◌&&◌, Option, none, some, List, [], ◌∷◌, ◌≡◌, refl,
  count, ◌==◌, str_eq, eq_iff, arith, Bool-cases, inl, inr, ◌⊎◌, subst,
}
use sentinel_soroban_v.World.{
  Event, Call, Query, submitted, sweep_expired, extend_footprint, extend_ttl, prune_settled,
}
use sentinel_soroban_v.World.Db.{SettlementRow}
use sentinel_soroban_v.World.Monad.{
  Env, World, FlightConfig, TxState, success, failed, M, now, read_as, emit, ◌>>=◌,
}
use sentinel_soroban_v.World.Keeps.{
  Keeps, Triple, Triple-bind, Keeps-bind, Keeps-if, Keeps-pure, Keeps-skip, Keeps-raise, IsFramed,
  IsPlain, framed_rules,
}
use sentinel_soroban_v.Soroban.Frame.{Admits, Keeps-invoke, Keeps-attempt, Keeps-get_transaction}
use sentinel_soroban_v.Ttl.{Batch}
use sentinel_soroban_v.Ttl.Rows.{is_over, has_unclaimed}
use sentinel_soroban_v.Ttl.Extender.{
  Progress, on_state, await_extension, extend_persistent_ttl, as_result, extend_contracts,
  read_count, prune_pass, prune_passes, prune_aged, sweep_over, on_config, examine, mark_candidate,
  sweep_candidate, sweep_candidates, on_candidates, sweep_expired_claims, extend_batch,
  extend_or_defer, extend_batches, note_deferred, extend_idle, extend_idle_persistent_keys, run,
}

-- The transactions that sweep a flight.
abbrev pub is_sweep : String → ℕ → Event → Bool
is_sweep flight_id date (submitted (sweep_expired id d)) = str_eq id flight_id && d == date
is_sweep flight_id date _ = false

abbrev pub sweeps : String → ℕ → List Event → ℕ
sweeps flight_id date log = count (is_sweep flight_id date) log

plain_free :
    (flight_id : String) (date : ℕ) (e : Event) → IsPlain e → is_sweep flight_id date e ≡ false
plain_free flight_id date (submitted c) h = absurd h
plain_free flight_id date _ h = refl

Option-cases : {A : Type 0} (o : Option A) → (o ≡ none) ⊎ ((a : A) × (o ≡ some a))
Option-cases none = inl refl
Option-cases (some a) = inr (a, refl)

both_true : (a b : Bool) → a ≡ true → b ≡ true → (a && b) ≡ true
both_true a b h k = ground arith

clash : {b : Bool} → b ≡ true → b ≡ false → ⊥
clash h k = cc

both_eq :
    (id : String) (date : ℕ) (id' : String) (date' : ℕ)
    → (str_eq id' id && date' == date) ≡ true
    → (id' ≡ id) × (date' ≡ date)
both_eq id date id' date' h = ground (arith, eq_iff id' id)

module _ (flight_id : String) (date n : ℕ) where
  -- The flight was swept `n` times.
  unfoldable pub Swept : World → Type 0
  Swept w = sweeps flight_id date w.log ≡ n

  Swept-IsFramed : IsFramed Swept
  unfolding Swept
  Swept-IsFramed = record {
    logs = λ e w plain h. rw (plain_free flight_id date e plain) h;
    acts = λ w v same h. rw same h;
  }

  Swept-Admits : (c : Call) → is_sweep flight_id date (submitted c) ≡ false → Admits Swept c
  unfolding Swept
  Swept-Admits c other = record { sends = λ w h. rw other h; ends = λ done w h. h }

  ruleset swept_rules = (framed_rules, Swept-IsFramed)

  module _ (env : Env) where
    Keeps-on_state :
        (c : Call) (state : TxState) (rest : M Unit)
        → Keeps Swept rest
        → Keeps Swept (on_state env c state rest)
    unfolding on_state
    Keeps-on_state c success rest k = Keeps-skip
    Keeps-on_state c failed rest k = Keeps-raise _
    Keeps-on_state c _ rest k = k

    Keeps-await_extension : (rounds : ℕ) (c : Call) → Keeps Swept (await_extension env rounds c)
    unfolding await_extension
    Keeps-await_extension zero c = Keeps-raise _
    Keeps-await_extension (suc rounds) c = Keeps-bind _ _ (search swept_rules) (λ u.
        Keeps-bind _ _ (search (swept_rules, Keeps-get_transaction))
          (λ state. Keeps-on_state c state _ (Keeps-await_extension rounds c)))

    Keeps-emit_free :
        (c : Call)
        → is_sweep flight_id date (submitted c) ≡ false
        → Keeps Swept (emit (submitted c))
    unfolding emit Swept
    Keeps-emit_free c other = record { at = λ w h. rw other h }

    Keeps-extend_persistent_ttl :
        (contract : String) (keys : List String)
        → Keeps Swept (extend_persistent_ttl env contract keys)
    unfolding extend_persistent_ttl
    Keeps-extend_persistent_ttl contract keys =
        Keeps-bind _ _ (search (swept_rules, Keeps-attempt)) (λ u.
          Keeps-bind _ _ (search (swept_rules, Keeps-attempt)) (λ u.
            Keeps-bind _ _ (Keeps-emit_free (extend_footprint contract keys) refl)
              (λ u. search (swept_rules, Keeps-attempt, Keeps-await_extension) depth 9)))

    Keeps-as_result :
        (name : String) (m : M Unit) → Keeps Swept m → Keeps Swept (as_result env name m)
    unfolding as_result
    Keeps-as_result name m k = search swept_rules depth 9

    Keeps-extend_contracts : (names : List String) → Keeps Swept (extend_contracts env names)
    unfolding extend_contracts
    Keeps-extend_contracts [] = Keeps-pure _
    Keeps-extend_contracts (name ∷ rest) =
        Keeps-bind _ _
          (Keeps-as_result name _
            (Keeps-invoke Swept Swept-IsFramed env _ (Swept-Admits (extend_ttl name) refl)))
          (λ r. Keeps-bind _ _ (Keeps-extend_contracts rest) (λ rs. Keeps-pure _))

    Keeps-prune_passes : (left count : ℕ) → Keeps Swept (prune_passes env left count)
    unfolding prune_passes prune_pass read_count
    Keeps-prune_passes zero count = Keeps-skip
    Keeps-prune_passes (suc left) count =
        Keeps-bind _ _ (Keeps-invoke Swept Swept-IsFramed env _ (Swept-Admits prune_settled refl))
          (λ u.
            Keeps-bind _ _ (search swept_rules)
              (λ next. Keeps-if _ _ _ (λ b. Keeps-skip) (λ b. Keeps-prune_passes left next)))

    Keeps-prune_aged : Keeps Swept (prune_aged env)
    unfolding prune_aged read_count
    Keeps-prune_aged = search (swept_rules, Keeps-prune_passes)

    Keeps-mark_candidate :
        (c : SettlementRow) (results : List _) → Keeps Swept (mark_candidate env c results)
    unfolding mark_candidate
    Keeps-mark_candidate c results = search swept_rules depth 9

    Keeps-extend_batches :
        (start : ℕ) (bs : List Batch) (p : Progress) → Keeps Swept (extend_batches env start bs p)
    unfolding extend_batches extend_or_defer extend_batch
    Keeps-extend_batches start [] p = Keeps-pure _
    Keeps-extend_batches start (b ∷ rest) p =
        Keeps-bind _ _ (search (swept_rules, Keeps-extend_persistent_ttl) depth 14)
          (λ p'. Keeps-extend_batches start rest p')

    Keeps-extend_idle_persistent_keys :
        (start : ℕ) → Keeps Swept (extend_idle_persistent_keys env start)
    unfolding extend_idle_persistent_keys extend_idle note_deferred
    Keeps-extend_idle_persistent_keys start = search (swept_rules, Keeps-extend_batches) depth 20

    now-Triple :
        Triple Swept (now env) (λ t w. Swept w × ((log : List Event) × (env.now log ≡ t))) Swept
    unfolding now ◌>>=◌ Swept
    now-Triple = record { at = λ w h. (h, (w.log, refl)) }

    read_as-Triple :
        {A : Type 0} (q : Query) (f : List Event → Option A)
        → Triple Swept
            (read_as env q f)
            (λ a w. Swept w × ((log : List Event) × (f log ≡ some a)))
            Swept
    unfolding read_as ◌>>=◌ Swept
    read_as-Triple q f = record {
      at = λ w h. elim (Option-cases (f w.log)) [
        | inl missing ↦ rw missing h
        | inr (a, told) ↦ rw told (h, (w.log, told))
      ];
    }

    -- what the pool may answer about our flight, and the times that the run may read
    module _
        (held : (log later : List Event) (cfg : FlightConfig)
          → env.flight_config log flight_id date ≡ some (some cfg)
          → (is_over (env.now later / 1000) cfg && has_unclaimed cfg) ≡ false) where
      Admits-sweep_over :
          (later log : List Event) (c : SettlementRow) (cfg : FlightConfig)
          → env.flight_config log c.flight_id c.date ≡ some (some cfg)
          → (is_over (env.now later / 1000) cfg && has_unclaimed cfg) ≡ true
          → Admits Swept (sweep_expired c.flight_id c.date)
      Admits-sweep_over later log c cfg told due =
          elim (Bool-cases (str_eq c.flight_id flight_id && c.date == date)) [
            | inr other ↦ Swept-Admits _ other
            | inl same ↦ absurd (contradiction later log c cfg same told due)
          ]
        where
          contradiction :
              (later log : List Event) (c : SettlementRow) (cfg : FlightConfig)
              → (str_eq c.flight_id flight_id && c.date == date) ≡ true
              → env.flight_config log c.flight_id c.date ≡ some (some cfg)
              → (is_over (env.now later / 1000) cfg && has_unclaimed cfg) ≡ true
              → ⊥
          contradiction later log c cfg same told due =
              let (id_eq, date_eq) = both_eq flight_id date c.flight_id c.date same in
              clash due (
                held log later cfg (
                  subst (λ k. env.flight_config log k date ≡ some (some cfg)) id_eq
                    (subst (λ d. env.flight_config log c.flight_id d ≡ some (some cfg)) date_eq
                      told)))

      Keeps-on_config :
          (later log : List Event) (c : SettlementRow) (cfg : Option FlightConfig)
          → env.flight_config log c.flight_id c.date ≡ some cfg
          → Keeps Swept (on_config env (env.now later / 1000) c cfg)
      unfolding on_config sweep_over
      Keeps-on_config later log c none told = Keeps-pure _
      Keeps-on_config later log c (some cfg) told =
          Keeps-if (is_over (env.now later / 1000) cfg) _ _
            (λ over.
              Keeps-if (has_unclaimed cfg) _ _
                (λ left.
                  Keeps-bind _ _
                    (Keeps-invoke Swept Swept-IsFramed env _
                      (Admits-sweep_over later log c cfg told (both_true _ _ over left)))
                    (λ u. Keeps-pure _))
                (λ none_left. Keeps-pure _))
            (λ early. Keeps-pure _)

      Keeps-examine :
          (later : List Event) (c : SettlementRow)
          → Keeps Swept (examine env (env.now later / 1000) c)
      unfolding examine
      Keeps-examine later c =
          Triple-bind _ _ (read_as-Triple _ _)
            (λ cfg w q. (Keeps-on_config later q.1.0 c cfg q.1.1).at w q.0)

      Keeps-sweep_candidates :
          (later : List Event) (rows : List SettlementRow)
          → Keeps Swept (sweep_candidates env (env.now later / 1000) rows)
      unfolding sweep_candidates sweep_candidate
      Keeps-sweep_candidates later [] = Keeps-pure _
      Keeps-sweep_candidates later (c ∷ rest) =
          Keeps-bind _ _ (search (swept_rules, Keeps-examine, Keeps-mark_candidate) depth 12)
            (λ r. Keeps-bind _ _ (Keeps-sweep_candidates later rest) (λ rs. Keeps-pure _))

      Keeps-on_candidates : (rows : List SettlementRow) → Keeps Swept (on_candidates env rows)
      unfolding on_candidates
      Keeps-on_candidates [] = Keeps-pure _
      Keeps-on_candidates (c ∷ rest) = Triple-bind _ _ now-Triple (λ t w q.
          (subst (λ k. Keeps Swept (sweep_candidates env (k / 1000) (c ∷ rest))) q.1.1
              (Keeps-sweep_candidates q.1.0 (c ∷ rest))).at
            w q.0)

      Keeps-sweep_expired_claims : Keeps Swept (sweep_expired_claims env)
      unfolding sweep_expired_claims
      Keeps-sweep_expired_claims = search (swept_rules, Keeps-on_candidates) depth 12

      Keeps-run : Keeps Swept (run env)
      unfolding run
      Keeps-run =
          search
            (
              swept_rules, Keeps-extend_contracts, Keeps-as_result, Keeps-prune_aged,
              Keeps-sweep_expired_claims, Keeps-extend_idle_persistent_keys,
            )
            depth 16

-- Where the pool never shows a flight as settled, past its claim window at any time that the run may
-- read and with a claim left, a run of the TTL job sends no transaction that sweeps the flight.
pub run-unswept :
    (env : Env) (flight_id : String) (date : ℕ) (w : World)
    → ((log later : List Event) (cfg : FlightConfig)
        → env.flight_config log flight_id date ≡ some (some cfg)
        → (is_over (env.now later / 1000) cfg && has_unclaimed cfg) ≡ false)
    → sweeps flight_id date (run env w).1.log ≡ sweeps flight_id date w.log
unfolding Swept
run-unswept env flight_id date w held =
    (Keeps-run flight_id date (sweeps flight_id date w.log) env held).at w refl
