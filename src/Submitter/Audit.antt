-- ===== src/Submitter/Audit.antt =====
-- The audit of a submission: dapp/api/_lib/governance/submitter.ts.
use sentinel_soroban_v.Base.{
  String, Bool, true, false, some, List, ◌∷◌, ◌≡◌, refl, if◌then◌else◌, Bool-cases, inl, inr,
  Option-cases,
}
use sentinel_soroban_v.World.{Event, Failure, Call, RouteKey, submitted, read, route_status}
use sentinel_soroban_v.World.Db.{AuditRow}
use sentinel_soroban_v.World.Monad.{
  Env, World, RouteState, Result, ok, err, M, pure, skip, raise, continue, ◌>>=◌, catch, read_as,
  statement,
}
use sentinel_soroban_v.Submitter.{
  SubmitOutcome, add_audit, read_status, safe_log, sign_and_send, submit,
}

abbrev pub is_ok : {A : Type 0} → Result A → Bool
is_ok (ok a) = true
is_ok (err e) = false

abbrev pub row_of : String → RouteKey → String → Bool → AuditRow
row_of actor key action success = record {
  actor = actor;
  action = action;
  route = key;
  success = success;
}

-- The audit with a row more, where the database takes it.
abbrev pub with_row : Bool → AuditRow → List AuditRow → List AuditRow
with_row up row audit = if up then row ∷ audit else audit

module _ (env : Env) (actor : String) (key : RouteKey) (action : String) (up : Bool)
    (answers : (log : List Event) → env.sql_answers log ≡ up) where
  safe_log_lem :
      (success : Bool) (w : World)
      → let r = safe_log env actor key action success w in
        (r.0 ≡ ok tt) × (r.1.db.audit ≡ with_row up (row_of actor key action success) w.db.audit)
  unfolding safe_log statement ◌>>=◌ catch skip add_audit
  safe_log_lem success w = elim (Bool-cases up) [
    | inl here ↦ rw (answers w.log, here) (refl, refl)
    | inr down ↦ rw (answers w.log, down) (refl, refl)
  ]

  -- What is said of the end of a submission that began with the audit `old`.
  Ended : Bool → List AuditRow → Result SubmitOutcome × World → Type 0
  Ended returned old r =
      (is_ok r.0 ≡ returned) × (r.1.db.audit ≡ with_row up (row_of actor key action returned) old)

  ok_end :
      (out : SubmitOutcome) (w : World)
      → Ended true w.db.audit ((safe_log env actor key action true >>= (λ u. pure out)) w)
  unfolding Ended ◌>>=◌ pure
  ok_end out w = go _ (safe_log_lem true w)
    where
      go :
          (r : Result Unit × World)
          → (r.0 ≡ ok tt) × (r.1.db.audit ≡ with_row up (row_of actor key action true) w.db.audit)
          → Ended true w.db.audit (continue r.0 (λ u. pure out) r.1)
      go (ok u, v) (e, a) = (refl, a)
      go (err x, v) (e, a) = cc

  err_end :
      (x : Failure) (f : Unit → M SubmitOutcome) (w : World)
      → let p = (safe_log env actor key action false >>= (λ u. raise {A = Unit} x)) w in
        Ended false w.db.audit (continue p.0 f p.1)
  unfolding Ended ◌>>=◌ raise
  err_end x f w = go _ (safe_log_lem false w)
    where
      go :
          (r : Result Unit × World)
          → (r.0 ≡ ok tt) × (r.1.db.audit ≡ with_row up (row_of actor key action false) w.db.audit)
          → let p = continue r.0 (λ u. raise {A = Unit} x) r.1 in
            Ended false w.db.audit (continue p.0 f p.1)
      go (ok u, v) (e, a) = (refl, a)
      go (err y, v) (e, a) = cc

  -- the snapshot behind a `signAndSend` that returned, and the row of its audit
  after_end :
      (before : RouteState) (w : World)
      → Ended true w.db.audit (
          (catch (read_status env actor key) (λ e. pure RouteState.unknown) >>= (λ after.
              safe_log env actor key action true
              >>= (λ u. pure (record { before = before; after = after }))))
            w)
  unfolding read_status read_as ◌>>=◌ catch
  after_end before w = elim (Option-cases (env.route_status w.log key)) [
    | inl none_read ↦ rw none_read (ok_end _ _)
    | inr (state, read_it) ↦ rw read_it (ok_end _ _)
  ]

-- A submission to the governance contract, behind a snapshot of the route that could be read: it
-- returns if `signAndSend` returned and throws if `signAndSend` threw, whatever the second snapshot
-- and the database come to; and where the database answers, it leaves exactly one new row in the
-- audit, with the actor, the action and the route, and marked with that; where it does not, it leaves
-- none. The mark is that of the call: a transaction that landed although `signAndSend` threw is
-- audited as a failure.
pub submit-audit :
    (env : Env) (actor : String) (key : RouteKey) (action : String) (c : Call) (up : Bool)
    (before : RouteState) (w : World)
    → ((log : List Event) → env.sql_answers log ≡ up)
    → env.route_status w.log key ≡ some before
    → let returned =
        env.governance_returns (submitted c ∷ read (route_status key) true ∷ w.log) c in
      let r = submit env actor key action c w in
      (is_ok r.0 ≡ returned)
      × (r.1.db.audit ≡ with_row up (row_of actor key action returned) w.db.audit)
unfolding submit read_status read_as sign_and_send ◌>>=◌ catch Ended
submit-audit env actor key action c up before w answers seen =
    let returned = env.governance_returns (submitted c ∷ read (route_status key) true ∷ w.log) c in
    elim (Bool-cases returned) [
      | inl back ↦ rw (seen, back) (after_end env actor key action up answers before _)
      | inr thrown ↦ rw (seen, thrown) (err_end env actor key action up answers _ _ _)
    ]
