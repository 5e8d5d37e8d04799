-- ===== src/Revive/DryRun.antt =====
-- Dry runs.
use sentinel_soroban_v.Base.{ℕ, Bool, true, false, Option, ◌≡◌, refl, ◌∙◌, ◌==◌, or_else}
use sentinel_soroban_v.World.{Event, RouteKey, submitted}
use sentinel_soroban_v.World.Db.{Cause, Evidence}
use sentinel_soroban_v.World.Monad.{Env, World}
use sentinel_soroban_v.World.Keeps.{Keeps, IsPlain}
use sentinel_soroban_v.World.Cost.{is_submission, submissions}
use sentinel_soroban_v.World.Quiet.{IsQuiet, Suits, quiet_rules}
use sentinel_soroban_v.Interventions.Ledger.{touch, refresh}
use sentinel_soroban_v.Interventions.Executor.{touch_intervention}
use sentinel_soroban_v.Interventions.Guardrails.{is_held}
use sentinel_soroban_v.Interventions.Holds.{any-holds-faithful}
use sentinel_soroban_v.Revive.{run}
use sentinel_soroban_v.Revive.Frame.{Keeps-run}

-- Nothing that a traveller can see has changed: no transaction, the same routes on sale, and the
-- same causes holding the same routes.
pub record IsUntouched (before after : World) : Type 0 where
  pub sent : submissions after.log ≡ submissions before.log
  pub routes : after.db.routes ≡ before.db.routes
  pub held :
      (key : RouteKey) (cause : Cause) → is_held key cause after.db ≡ is_held key cause before.db

plain_free : (e : Event) → IsPlain e → is_submission e ≡ false
plain_free (submitted c) h = absurd h
plain_free _ h = refl

module _ (before : World) where
  pub IsUntouched-IsQuiet : IsQuiet (IsUntouched before)
  IsUntouched-IsQuiet = record {
    logs = λ e w plain h. record {
      sent = rw (plain_free e plain) h.sent;
      routes = h.routes;
      held = h.held;
    };
    acts = λ w v l d h. record {
      sent = rw l h.sent;
      routes = rw d h.routes;
      held = λ key cause. rw d (h.held key cause);
    };
  }

  touch-Suits :
      (id : ℕ) (evidence : Option Evidence) (t : ℕ)
      → Suits (IsUntouched before) (touch id evidence t)
  unfolding touch
  touch-Suits id evidence t = record {
    to = λ w h. record {
      sent = h.sent;
      routes = h.routes;
      held = λ key cause.
          any-holds-faithful key cause (λ r. r.id == id)
            (λ r. refresh (or_else evidence r.evidence) t r)
            (record { route = λ r. refl; cause = λ r. refl; revived = λ r. refl })
            w.db.interventions
          ∙ h.held key cause;
    };
  }

  Keeps-touch_intervention :
      (env : Env) (id : ℕ) (evidence : Option Evidence)
      → Keeps (IsUntouched before) (touch_intervention env id evidence)
  unfolding touch_intervention
  Keeps-touch_intervention env id evidence = search (quiet_rules, IsUntouched-IsQuiet, touch-Suits)

-- A dry run of the revive engine sends no transaction, leaves the routes table as it is and opens
-- and closes no row, whatever it finds and whatever fails.
pub run-IsUntouched :
    (env : Env) (severe_at : ℕ) (force_all : Bool) (w : World)
    → IsUntouched w (run env true severe_at force_all w).1
run-IsUntouched env severe_at force_all w =
    (Keeps-run (IsUntouched w) (IsUntouched-IsQuiet w) env true (λ k cause healed wet. cc)
        (Keeps-touch_intervention w env) (λ id wet. cc) severe_at force_all).at
      w (record { sent = refl; routes = refl; held = λ key cause. refl })
