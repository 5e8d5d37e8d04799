-- ===== src/Interventions/Refinement.antt =====
-- What the operations do to the set of holds, by what they return.
use sentinel_soroban_v.Base.{
  ℕ, String, Bool, true, false, List, [], ◌∷◌, ◌≡◌, refl, ◌⊎◌, inl, inr, if◌then◌else◌, Bool-cases,
}
use sentinel_soroban_v.World.{RouteKey}
use sentinel_soroban_v.World.Db.{Db, Cause, Evidence, InterventionRow}
use sentinel_soroban_v.World.Monad.{
  Env, World, Result, ok, err, M, pure, continue, ◌>>=◌, statement_at, statement,
}
use sentinel_soroban_v.World.Keeps.{Keeps, Triple, Post, Ends, IsLax, Ends-bind, Ends-if}
use sentinel_soroban_v.World.Quiet.{Quiet-query}
use sentinel_soroban_v.Interventions.Ledger.{open_row, close_rows}
use sentinel_soroban_v.Interventions.Executor.{
  PauseOutcome, PauseResult, no_db, frozen, pinned, paused, already_off, ReviveOutcome,
  still_frozen, pause_on_chain, record_and_pause, guarded, pause_route, revive_if_free,
  revive_on_chain, close_and_revive, revive_route, ensure_table, gov_frozen, is_pinned, is_admin,
}
use sentinel_soroban_v.Interventions.HoldSets.{
  HoldSet, At, At-IsQuiet, Keeps-emit_any, mirror-Suits, add_audit-Suits,
}
use sentinel_soroban_v.Interventions.Chain.{
  Keeps-ensure_table, Keeps-gov_frozen, Keeps-is_pinned, Keeps-pause_on_chain, Keeps-revive_if_free,
}

-- Whether a pause says that it was recorded.
abbrev pub is_recorded : PauseResult → Bool
is_recorded r = recorded r.outcome
  where
    recorded : PauseOutcome → Bool
    recorded no_db = false
    recorded frozen = false
    recorded pinned = false
    recorded _ = true

-- Whether a revival says that it closed its cause.
abbrev pub is_closed : ReviveOutcome → Bool
is_closed still_frozen = false
is_closed _ = true

abbrev Says : {A : Type 0} → (A → Type 0) → Result A × World → Type 0
Says V (ok a, w) = V a
Says V (err e, w) = Unit

Says-IsLax : {A : Type 0} (V : A → Type 0) → IsLax (Says V)
Says-IsLax V = record { errs = λ e w. tt }

module _ {A B : Type 0} {P : World → Type 0} {Q : A → World → Type 0} {S : B → World → Type 0}
    {E F : World → Type 0} where
  Triple-then :
      (m : M A) (f : A → M B)
      → Triple P m Q E
      → ((w : World) → E w → F w)
      → ((a : A) → Triple (Q a) (f a) S F)
      → Triple P (m >>= f) S F
  unfolding ◌>>=◌
  Triple-then m f tm weaken tf = record { at = λ w p. go (m w) (tm.at w p) }
    where
      go : (r : Result A × World) → Post Q E r → Post S F (continue r.0 f r.1)
      go (ok a, w) q = (tf a).at w q
      go (err e, w) q = weaken w q

module _ {A : Type 0} {P : World → Type 0} {Q : A → World → Type 0} {E : World → Type 0} where
  Triple-pure : (a : A) → ((w : World) → P w → Q a w) → Triple P (pure a) Q E
  unfolding pure
  Triple-pure a here = record { at = here }

  Triple-if :
      (b : Bool) (m n : M A) → Triple P m Q E → Triple P n Q E → Triple P (if b then m else n) Q E
  Triple-if true m n tm tn = tm
  Triple-if false m n tm tn = tn

  -- What an action keeps, with what its value says of itself.
  Triple-Says :
      (V : A → Type 0) (m : M A)
      → Keeps P m
      → Ends (Says V) m
      → ((a : A) (w : World) → P w → V a → Q a w)
      → ((w : World) → P w → E w)
      → Triple P m Q E
  Triple-Says V m km em here weaken = record { at = λ w p. go (m w) (km.at w p) (em.at w) }
    where
      go : (r : Result A × World) → P r.1 → Says V r → Post Q E r
      go (ok a, w) p v = here a w p v
      go (err e, w) p v = weaken w p

Triple-kept : {A : Type 0} {P : World → Type 0} (m : M A) → Keeps P m → Triple P m (λ a. P) P
Triple-kept {A} {P} m km = record { at = λ w p. go (m w) (km.at w p) }
  where
    go : (r : Result A × World) → P r.1 → Post (λ a. P) P r
    go (ok a, w) p = p
    go (err e, w) p = p

module _ (env : Env) (h : HoldSet) where
  table_kept : Keeps (At h) (ensure_table env)
  table_kept =
      Keeps-ensure_table (At h) (At-IsQuiet h) (Keeps-emit_any h) (mirror-Suits h)
        (add_audit-Suits h) env

  frozen_kept : Keeps (At h) (gov_frozen env)
  frozen_kept =
      Keeps-gov_frozen (At h) (At-IsQuiet h) (Keeps-emit_any h) (mirror-Suits h) (add_audit-Suits h)
        env

  pinned_kept : (key : RouteKey) → Keeps (At h) (is_pinned env key)
  pinned_kept key =
      Keeps-is_pinned (At h) (At-IsQuiet h) (Keeps-emit_any h) (mirror-Suits h) (add_audit-Suits h)
        env key

module _ (env : Env) (h h' : HoldSet) where
  -- the set before, or after
  unfoldable pub Took : Bool → World → Type 0
  Took false w = At h w
  Took true w = At h' w

  unfoldable pub Either : World → Type 0
  Either w = At h w ⊎ At h' w

  move_lem :
      (f : ℕ → Db → Db)
      → ((t : ℕ) (w : World) → At h w → At h' (record w { db = f t w.db }))
      → Triple (At h) (statement_at env f) (λ u. At h') (At h)
  unfolding statement_at statement ◌>>=◌ At
  move_lem f moves = record {
    at = λ w a. elim (Bool-cases (env.sql_answers w.log)) [
      | inl up ↦ rw up (moves (env.db_now w.log) w a)
      | inr down ↦ rw down a
    ];
  }

  Says-pause_on_chain :
      (key : RouteKey) (actor : String)
      → Ends (Says (λ r. is_recorded r ≡ true)) (pause_on_chain env key actor)
  unfolding pause_on_chain pure
  Says-pause_on_chain key actor = Ends-bind _ _ lax (λ state.
      Ends-bind _ _ lax (λ disabled. Ends-bind _ _ lax (λ u. record { at = λ w. told disabled })))
    where
      lax : IsLax (Says (λ r. is_recorded r ≡ true))
      lax = Says-IsLax (λ r. is_recorded r ≡ true)

      told :
          (b : Bool)
          → is_recorded
              (record { outcome = if b then paused else already_off; disabled_on_chain = b })
            ≡ true
      told true = refl
      told false = refl

  Triple-record_and_pause :
      (key : RouteKey) (cause : Cause) (evidence : Evidence) (actor : String)
      → ((t : ℕ) (w : World)
          → At h w
          → At h' (record w { db = open_row key cause evidence actor t w.db }))
      → Triple
          (At h)
          (record_and_pause env key cause evidence actor)
          (λ r. Took (is_recorded r))
          Either
  unfolding record_and_pause Took Either
  Triple-record_and_pause key cause evidence actor moves =
      Triple-then _ _ (move_lem _ moves) (λ w. inl)
        (λ u.
          Triple-if env.has_governance_key _ _
            (Triple-Says (λ r. is_recorded r ≡ true) _
              (Keeps-pause_on_chain (At h') (At-IsQuiet h') (Keeps-emit_any h') (mirror-Suits h')
                (add_audit-Suits h') env key actor)
              (Says-pause_on_chain key actor) (λ r w a v. rw v a) (λ w. inr))
            (Triple-pure _ (λ w a. a)))

  pub Triple-pause_route :
      (key : RouteKey) (cause : Cause) (evidence : Evidence) (actor : String)
      → ((t : ℕ) (w : World)
          → At h w
          → At h' (record w { db = open_row key cause evidence actor t w.db }))
      → Triple (At h) (pause_route env key cause evidence actor) (λ r. Took (is_recorded r)) Either
  unfolding pause_route guarded Took Either
  Triple-pause_route key cause evidence actor moves =
      let go = Triple-record_and_pause key cause evidence actor moves in
      Triple-if env.db_configured _ _
        (Triple-then _ _ (Triple-kept _ (table_kept env h)) (λ w. inl)
          (λ u. Triple-if (is_admin cause) _ _ go (
            Triple-then _ _ (Triple-kept _ (frozen_kept env h)) (λ w. inl)
              (λ is_frozen. Triple-if is_frozen _ _ (Triple-pure _ (λ w a. a)) (
                Triple-then _ _ (Triple-kept _ (pinned_kept env h key)) (λ w. inl)
                  (λ pin. Triple-if pin _ _ (Triple-pure _ (λ w a. a)) go))))))
        (Triple-pure _ (λ w a. a))

  Says-revive_if_free :
      (key : RouteKey) (actor : String) (rows : List InterventionRow)
      → Ends (Says (λ o. is_closed o ≡ true)) (revive_if_free env key actor rows)
  unfolding revive_if_free revive_on_chain pure
  Says-revive_if_free key actor (r ∷ rest) = record { at = λ w. refl }
  Says-revive_if_free key actor [] =
      Ends-if env.has_governance_key _ _
        (Ends-bind _ _ lax
          (λ state. Ends-bind _ _ lax (λ u. Ends-bind _ _ lax (λ v. record { at = λ w. refl }))))
        (record { at = λ w. refl })
    where
      lax : IsLax (Says (λ o. is_closed o ≡ true))
      lax = Says-IsLax (λ o. is_closed o ≡ true)

  pub Triple-revive_route :
      (key : RouteKey) (cause : Cause) (actor : String)
      → ((t : ℕ) (w : World) → At h w → At h' (record w { db = close_rows key cause actor t w.db }))
      → Triple (At h) (revive_route env key cause actor) (λ o. Took (is_closed o)) Either
  unfolding revive_route close_and_revive Took Either
  Triple-revive_route key cause actor moves =
      Triple-then _ _ (Triple-kept _ (table_kept env h)) (λ w. inl)
        (λ u.
          Triple-then _ _
            (Triple-if (is_admin cause) _ _ (Triple-pure _ (λ w a. a))
              (Triple-kept _ (frozen_kept env h)))
            (λ w. inl)
            (λ is_frozen. Triple-if is_frozen _ _ (Triple-pure _ (λ w a. a)) (
              Triple-then _ _ (move_lem _ moves) (λ w. inl)
                (λ v.
                  Triple-then _ _ (Triple-kept _ (Quiet-query (At h') (At-IsQuiet h') env _))
                    (λ w. inr)
                    (λ rows.
                      Triple-Says (λ o. is_closed o ≡ true) _
                        (Keeps-revive_if_free (At h') (At-IsQuiet h') (Keeps-emit_any h')
                          (mirror-Suits h') (add_audit-Suits h') env key actor rows)
                        (Says-revive_if_free key actor rows) (λ o w a v. rw v a) (λ w. inr))))))
