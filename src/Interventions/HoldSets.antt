-- ===== src/Interventions/HoldSets.antt =====
-- The ledger of dapp/api/_lib/governance/interventions.ts as a set of holds: who holds which route,
-- without rows, their order, their numbers and their evidence.
use sentinel_soroban_v.Base.{
  ℕ, String, Bool, true, false, ◌&&◌, ◌||◌, some, List, [], ◌∷◌, ◌≡◌, refl, sym, ◌∙◌, inl, inr, any,
  if◌then◌else◌, Bool-cases, arith,
}
use sentinel_soroban_v.World.{Event, RouteKey}
use sentinel_soroban_v.World.Db.{
  Db, Cause, Evidence, InterventionRow, AuditRow, key_eq, key_eq_iff, cause_eq, cause_eq_iff,
}
use sentinel_soroban_v.World.Monad.{World, emit}
use sentinel_soroban_v.World.Keeps.{Keeps}
use sentinel_soroban_v.World.Quiet.{IsQuiet, Suits}
use sentinel_soroban_v.Submitter.{add_audit}
use sentinel_soroban_v.Interventions.Ledger.{holds, update, open_row, add_row, refresh, mirror}
use sentinel_soroban_v.Interventions.Guardrails.{is_held}
use sentinel_soroban_v.Interventions.Holds.{any-holds-faithful, any-holds-close}
use sentinel_soroban_v.Interventions.Pauses.{any-holds-apart}

-- The set of holds, by its test.
abbrev pub HoldSet : Type 0
HoldSet = RouteKey → Cause → Bool

abbrev pub view : Db → HoldSet
view db key cause = is_held key cause db

abbrev pub set_hold : RouteKey → Cause → Bool → HoldSet → HoldSet
set_hold key cause b h k c = if key_eq key k && cause_eq cause c then b else h k c

-- The world's ledger is this set.
unfoldable pub At : HoldSet → World → Type 0
At h w = (key : RouteKey) (cause : Cause) → is_held key cause w.db ≡ h key cause

pub At-IsQuiet : (h : HoldSet) → IsQuiet (At h)
unfolding At
At-IsQuiet h = record { logs = λ e w plain a. a; acts = λ w v l d a. rw d a }

pub Keeps-emit_any : (h : HoldSet) (e : Event) → Keeps (At h) (emit e)
unfolding At emit
Keeps-emit_any h e = record { at = λ w a. a }

pub mirror-Suits : (h : HoldSet) (key : RouteKey) (active : Bool) → Suits (At h) (mirror key active)
unfolding At mirror
mirror-Suits h key active = record { to = λ w a. a }

pub add_audit-Suits : (h : HoldSet) (row : AuditRow) → Suits (At h) (add_audit row)
unfolding At add_audit
add_audit-Suits h row = record { to = λ w a. a }

same_lem :
    (key k : RouteKey) (cause c : Cause)
    → (key_eq key k && cause_eq cause c) ≡ true
    → (key ≡ k) × (cause ≡ c)
same_lem key k cause c same =
    ((key_eq_iff key k).0 (left_lem _ _ same), (cause_eq_iff cause c).0 (right_lem _ _ same))
  where
    left_lem : (a b : Bool) → (a && b) ≡ true → a ≡ true
    left_lem a b h = ground arith

    right_lem : (a b : Bool) → (a && b) ≡ true → b ≡ true
    right_lem a b h = ground arith

pub any-holds-open :
    (key k : RouteKey) (cause c : Cause) (evidence : Evidence) (actor : String) (t : ℕ) (db : Db)
    → any (holds k c) (open_row key cause evidence actor t db).interventions
      ≡ (if key_eq key k && cause_eq cause c then true else any (holds k c) db.interventions)
unfolding open_row add_row
any-holds-open key k cause c evidence actor t db =
    elim (Bool-cases (any (holds key cause) db.interventions)) [
      | inl known ↦ rw known (
          any-holds-faithful k c (holds key cause) (refresh evidence t)
            (record { route = λ r. refl; cause = λ r. refl; revived = λ r. refl }) db.interventions
          ∙ known_lem known)
      | inr fresh ↦ rw fresh (or_lem (key_eq key k && cause_eq cause c) _)
    ]
  where
    or_lem : (a b : Bool) → (a || b) ≡ (if a then true else b)
    or_lem true b = refl
    or_lem false b = refl

    known_lem :
        any (holds key cause) db.interventions ≡ true
        → any (holds k c) db.interventions
          ≡ (if key_eq key k && cause_eq cause c then true else any (holds k c) db.interventions)
    known_lem known = elim (Bool-cases (key_eq key k && cause_eq cause c)) [
      | inl same ↦
          let (keys, causes) = same_lem key k cause c same in rw (same, sym keys, sym causes) known
      | inr apart ↦ rw apart refl
    ]

closed_lem :
    (key : RouteKey) (cause : Cause) (actor : String) (t : ℕ) (rows : List InterventionRow)
    → any (holds key cause) (
        update (holds key cause) (λ r. record r { revived = some actor; last_checked_at = t }) rows)
      ≡ false
unfolding update
closed_lem key cause actor t [] = refl
closed_lem key cause actor t (r ∷ rest) = elim (Bool-cases (holds key cause r)) [
  | inl mine ↦ rw mine (closed_lem key cause actor t rest)
  | inr other ↦ rw (other, other) (closed_lem key cause actor t rest)
]

pub any-holds-closed :
    (key k : RouteKey) (cause c : Cause) (actor : String) (t : ℕ) (rows : List InterventionRow)
    → any (holds k c) (
        update (holds key cause) (λ r. record r { revived = some actor; last_checked_at = t }) rows)
      ≡ (if key_eq key k && cause_eq cause c then false else any (holds k c) rows)
any-holds-closed key k cause c actor t rows = elim (Bool-cases (key_eq key k)) [
  | inr apart ↦ rw apart (any-holds-apart k key c cause actor t apart rows)
  | inl same ↦ elim (Bool-cases (cause_eq cause c)) [
    | inr differ ↦ rw (same, differ) (any-holds-close k c key cause actor t differ rows)
    | inl one ↦
        rw (same, one)
          (rw (sym ((key_eq_iff key k).0 same), sym ((cause_eq_iff cause c).0 one))
            (closed_lem key cause actor t rows))
  ]
]
