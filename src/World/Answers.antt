-- ===== src/World/Answers.antt =====
-- Actions that return one value only, and reads that are always answered alike.
use sentinel_soroban_v.Base.{ℕ, ◌≡◌, refl, Option, some, List}
use sentinel_soroban_v.World.Events.{Event, Query}
use sentinel_soroban_v.World.Monad.{Env, World, Result, ok, err, pure, now, read_as, ◌>>=◌}
use sentinel_soroban_v.World.Keeps.{Ends, IsLax}

-- An action that returns returns this value.
abbrev pub Gives : {A : Type 0} → A → Result A × World → Type 0
Gives a (ok x, w) = x ≡ a
Gives a (err e, w) = Unit

pub Gives-IsLax : {A : Type 0} (a : A) → IsLax (Gives a)
Gives-IsLax a = record { errs = λ e w. tt }

pub pure-Gives : {A : Type 0} (a : A) → Ends (Gives a) (pure a)
unfolding pure
pure-Gives a = record { at = λ w. refl }

module _ (env : Env) where
  pub read_as-Gives :
      {A : Type 0} (q : Query) (f : List Event → Option A) (a : A)
      → ((log : List Event) → f log ≡ some a)
      → Ends (Gives a) (read_as env q f)
  unfolding read_as ◌>>=◌
  read_as-Gives q f a still = record { at = λ w. rw (still w.log) refl }

  -- a clock that was read
  abbrev pub Told : Result ℕ × World → Type 0
  Told (ok t, w) = (log : List Event) × (env.now log ≡ t)
  Told (err e, w) = Unit

  pub now-Told : Ends Told (now env)
  unfolding now ◌>>=◌
  now-Told = record { at = λ w. (w.log, refl) }
