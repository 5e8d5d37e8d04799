-- ===== src/Tests/SubmitterTests.antt =====
-- Tests and instances for Submitter.
use sentinel_soroban_v.Base.{true, ◌≡◌, refl, ◌∷◌, false}
use sentinel_soroban_v.World.{submitted, read, route_status, disable_route}
use sentinel_soroban_v.World.Monad.{Env, RouteState}
use sentinel_soroban_v.Submitter.{submit}
use sentinel_soroban_v.Submitter.Audit.{is_ok, row_of, with_row, submit-audit}
use sentinel_soroban_v.Tests.Fixtures.{db_env, route, start}

-- a client whose every `signAndSend` throws
abbrev throwing_env : Env
throwing_env = record db_env { governance_returns = λ log c. false }

submit-audit_example :
    let returned =
      throwing_env.governance_returns
        (submitted (disable_route route) ∷ read (route_status route) true ∷ start.log)
        (disable_route route) in
    let r = submit throwing_env "cron:reprice" route "disable_route" (disable_route route) start in
    (is_ok r.0 ≡ returned)
    × (r.1.db.audit
        ≡ with_row true (row_of "cron:reprice" route "disable_route" returned) start.db.audit)
submit-audit_example =
    submit-audit throwing_env "cron:reprice" route "disable_route" (disable_route route) true
      RouteState.active start (λ log. refl) refl
