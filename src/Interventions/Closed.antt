-- ===== src/Interventions/Closed.antt =====
-- The open rows of a route whose last cause is closed.
use sentinel_soroban_v.Base.{
  ℕ, String, Bool, true, false, not, ◌||◌, some, List, [], ◌∷◌, ◌≡◌, refl, any, all, select, arith,
  ◌&&◌, Bool-cases, inl, inr, if◌then◌else◌,
}
use sentinel_soroban_v.World.{RouteKey}
use sentinel_soroban_v.World.Db.{Cause, InterventionRow, RouteRow, cause_eq, cause_eq_iff, key_eq}
use sentinel_soroban_v.Interventions.Ledger.{holds, holds_route, is_open, update, set_route}

-- Each row of the route says that it is on sale.
abbrev pub is_on_sale : RouteKey → List RouteRow → Bool
is_on_sale key routes = all (λ r. not (key_eq r.route key) || r.active) routes

pub set_route-on_sale :
    (key : RouteKey) (routes : List RouteRow) → is_on_sale key (set_route key true routes) ≡ true
unfolding set_route
set_route-on_sale key [] = refl
set_route-on_sale key (r ∷ rest) = ground (arith, set_route-on_sale key rest)

any-tail :
    (p : InterventionRow → Bool) (r : InterventionRow) (rest : List InterventionRow)
    → any p (r ∷ rest) ≡ false
    → any p rest ≡ false
any-tail p r rest h = ground arith

differs : (o k c : Bool) → (o && k) ≡ true → (o && (k && c)) ≡ false → c ≡ false
differs true true c h e = e
differs true false c h e = cc
differs false k c h e = cc

apart : (a b : Cause) → cause_eq a b ≡ false → cause_eq b a ≡ false
apart a b h = ground (arith, cause_eq_iff a b, cause_eq_iff b a)

pub if-true : {A : Type 0} (b : Bool) (x y : A) → b ≡ true → (if b then x else y) ≡ x
if-true true x y h = refl
if-true false x y h = cc

pub not-true : (b : Bool) → not b ≡ true → b ≡ false
not-true true h = cc
not-true false h = refl

true-ne-false : {b : Bool} → b ≡ true → b ≡ false → ⊥
true-ne-false h k = cc

module _ (key : RouteKey) (cause : Cause) (actor : String) (t : ℕ) where
  head_held :
      (r : InterventionRow) (rest : List InterventionRow)
      → holds_route key r ≡ true
      → any (holds key r.cause) (r ∷ rest) ≡ true
  head_held r rest h = ground (arith, cause_eq_iff r.cause r.cause)

  unfoldable pub closed : List InterventionRow → List InterventionRow
  closed rows =
      update (holds key cause) (λ r. record r { revived = some actor; last_checked_at = t }) rows

  close_one : InterventionRow → InterventionRow
  close_one r =
      if holds key cause r then record r { revived = some actor; last_checked_at = t } else r

  -- no row of the route is open once those of the cause are closed
  close-holds_route :
      (r : InterventionRow) (rest : List InterventionRow)
      → ((other : Cause) → cause_eq cause other ≡ false → any (holds key other) (r ∷ rest) ≡ false)
      → holds_route key (close_one r) ≡ false
  unfolding close_one
  close-holds_route r rest h = elim (Bool-cases (holds key cause r)) [
    | inl mine ↦ rw mine refl
    | inr other ↦ rw other (elim (Bool-cases (holds_route key r)) [
      | inr free ↦ free
      | inl held ↦
          let differ = differs (is_open r) (key_eq r.route key) _ held other in
          absurd (true-ne-false (head_held r rest held) (h r.cause (apart r.cause cause differ)))
    ])
  ]

  pub none_left :
      (rows : List InterventionRow)
      → ((other : Cause) → cause_eq cause other ≡ false → any (holds key other) rows ≡ false)
      → select (holds_route key) (closed rows) ≡ []
  unfolding closed update close_one
  none_left [] h = refl
  none_left (r ∷ rest) h =
      rw (close-holds_route r rest h)
        (none_left rest (λ other d. any-tail (holds key other) r rest (h other d)))

  pub none_held :
      (other : Cause) (rows : List InterventionRow)
      → select (holds_route key) rows ≡ []
      → any (holds key other) rows ≡ false
  none_held other [] h = refl
  none_held other (r ∷ rest) h = ground (arith, none_held other rest)
