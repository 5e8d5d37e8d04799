-- ===== src/Interventions/Slots.antt =====
-- The hourly budget of disables (`claimDisableSlot`).
use sentinel_soroban_v.Base.{
  ℕ, zero, suc, ◌+◌, ◌-◌, ◌≤◌, Bool, List, [], ◌∷◌, ◌≡◌, ◌==◌, ltb, if◌then◌else◌, arith, min,
}
use sentinel_soroban_v.World.Db.{Slot}
use sentinel_soroban_v.Interventions.Ledger.{claim_slot}

-- The count of a window, nought where it has no row.
unfoldable pub slot_count : ℕ → List Slot → ℕ
slot_count hour [] = 0
slot_count hour (s ∷ rest) = if s.window == hour then s.count else slot_count hour rest

abbrev pub one_if : Bool → ℕ
one_if b = if b then 1 else 0

-- How many of `n` claims in a row the window grants.
unfoldable pub granted : ℕ → ℕ → ℕ → List Slot → ℕ
granted cap hour zero slots = 0
granted cap hour (suc n) slots =
    let (claimed, slots') = claim_slot cap hour slots in one_if claimed + granted cap hour n slots'

claim_slot-count :
    (cap hour : ℕ) (slots : List Slot)
    → 1 ≤ cap
    → ((claim_slot cap hour slots).0 ≡ ltb (slot_count hour slots) cap)
      × (slot_count hour (claim_slot cap hour slots).1
          ≡ slot_count hour slots + one_if (ltb (slot_count hour slots) cap))
unfolding claim_slot slot_count
claim_slot-count cap hour [] h = ground arith
claim_slot-count cap hour (s ∷ rest) h = ground (arith, claim_slot-count cap hour rest)

-- Of `n` claims in a row in one hour, whose window starts within the budget, as many are granted
-- as the budget leaves, and no more: the claims beyond it are refused, and a refused claim uses
-- nothing up. The budget is at least one.
pub granted-min :
    (cap hour n : ℕ) (slots : List Slot)
    → 1 ≤ cap
    → slot_count hour slots ≤ cap
    → granted cap hour n slots ≡ min n (cap - slot_count hour slots)
unfolding granted
granted-min cap hour zero slots h within = ground arith
granted-min cap hour (suc n) slots h within =
    let one = claim_slot-count cap hour slots h in
    ground (arith, one.0, one.1, granted-min cap hour n (claim_slot cap hour slots).1 h)
