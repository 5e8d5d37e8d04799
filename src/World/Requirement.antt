-- ===== src/World/Requirement.antt =====
-- Logs in which every transaction has what it needs behind it.
use sentinel_soroban_v.Base.{List, [], ◌∷◌, ◌≡◌, ◌⊎◌, inr}
use sentinel_soroban_v.World.Events.{Event, Call, submitted, wrote}
use sentinel_soroban_v.World.Monad.{World}
use sentinel_soroban_v.World.Keeps.{IsFramed, IsPlain}

-- The event stands in the log.
abbrev pub Has : Event → List Event → Type 0
Has e [] = ⊥
Has e (x ∷ rest) = (e ≡ x) ⊎ Has e rest

pub Has-grow : (x e : Event) (log : List Event) → Has x log → Has x (e ∷ log)
Has-grow x e log h = inr h

-- A fact that stays true as the log grows.
pub record IsMono (X : List Event → Type 0) : Type 0 where
  pub grow : (e : Event) (log : List Event) → X log → X (e ∷ log)

module _ (Needs : Call → List Event → Type 0) where
  abbrev pub Fits : Event → List Event → Type 0
  Fits (submitted c) rest = Needs c rest
  Fits (wrote c done) rest = Needs c rest
  Fits _ rest = Unit

  -- Every transaction was sent, and ended, with its need in the log before it.
  abbrev pub Respects : List Event → Type 0
  Respects [] = Unit
  Respects (e ∷ rest) = Fits e rest × Respects rest

  abbrev pub Respecting : (List Event → Type 0) → World → Type 0
  Respecting X w = Respects w.log × X w.log

  pub Respecting-IsFramed : (X : List Event → Type 0) → IsMono X → IsFramed (Respecting X)
  Respecting-IsFramed X mono = record {
    logs = λ e w plain h. ((plain_fits e w plain, h.0), mono.grow e w.log h.1);
    acts = λ w v same h. rw same h;
  }
    where
      plain_fits : (e : Event) (w : World) → IsPlain e → Fits e w.log
      plain_fits (submitted c) w plain = absurd plain
      plain_fits (wrote c done) w plain = absurd plain
      plain_fits _ w plain = tt
