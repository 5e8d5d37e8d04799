-- ===== src/Interventions/Guardrails.antt =====
-- What holds a route, and what stops an automated pause.
use sentinel_soroban_v.Base.{
  ℕ, String, Bool, true, false, some, List, [], ◌∷◌, ◌≡◌, refl, sym, ◌∙◌, any, select, arith,
}
use sentinel_soroban_v.World.{Event, RouteKey, submitted, wrote}
use sentinel_soroban_v.World.Db.{Cause, InterventionRow, RouteRow, Db, cause_eq, cause_eq_iff}
use sentinel_soroban_v.World.Monad.{Env, World, pure}
use sentinel_soroban_v.World.Keeps.{Keeps, Keeps-bind, Triple-bind, IsPlain}
use sentinel_soroban_v.World.Cost.{submissions}
use sentinel_soroban_v.World.Quiet.{query-Triple, IsQuiet, Suits, quiet_rules}
use sentinel_soroban_v.Interventions.Ledger.{holds, holds_route, update, close_rows}
use sentinel_soroban_v.Interventions.Executor.{
  ensure_table, gov_frozen, revive_route, close_and_revive, revive_if_free,
}

abbrev pub is_held : RouteKey → Cause → Db → Bool
is_held key other db = any (holds key other) db.interventions

module _ (key : RouteKey) (other : Cause) (routes : List RouteRow) (sent : ℕ) where
  -- The route is held by the other cause; the routes table and the chain are as they were.
  unfoldable Held : World → Type 0
  Held w = (is_held key other w.db ≡ true) × (w.db.routes ≡ routes) × (submissions w.log ≡ sent)

  plain-submissions :
      (e : Event) (log : List Event) → IsPlain e → submissions (e ∷ log) ≡ submissions log
  plain-submissions (submitted c) log plain = absurd plain
  plain-submissions (wrote c done) log plain = absurd plain
  plain-submissions _ log plain = refl

  Held-IsQuiet : IsQuiet Held
  unfolding Held
  Held-IsQuiet = record {
    logs = λ e w plain h. rw (plain-submissions e w.log plain) h;
    acts = λ w v l d h. rw (l, d) h;
  }

any-holds-close :
    (key : RouteKey) (cause other : Cause) (actor : String) (t : ℕ)
    → cause_eq cause other ≡ false
    → (rows : List InterventionRow)
    → any (holds key other) (
        update (holds key cause) (λ r. record r { revived = some actor; last_checked_at = t }) rows)
      ≡ any (holds key other) rows
unfolding update
any-holds-close key cause other actor t differ [] = refl
any-holds-close key cause other actor t differ (r ∷ rest) = ground (
  arith,
  any-holds-close key cause other actor t differ rest,
  cause_eq_iff r.cause cause,
  cause_eq_iff r.cause other,
)

pub any-holds-holds_route :
    (key : RouteKey) (other : Cause) (rows : List InterventionRow)
    → any (holds key other) rows ≡ true
    → ¬ (select (holds_route key) rows ≡ [])
any-holds-holds_route key other [] h none_left = ground arith
any-holds-holds_route key other (r ∷ rest) h none_left =
    ground (arith, any-holds-holds_route key other rest)

module _ (env : Env) (key : RouteKey) (cause other : Cause) (actor : String)
    (differ : cause_eq cause other ≡ false) (routes : List RouteRow) (sent : ℕ) where
  H : World → Type 0
  H = Held key other routes sent

  close_rows-Suits : (t : ℕ) → Suits H (close_rows key cause actor t)
  unfolding H Held close_rows
  close_rows-Suits t = record {
    to = λ w h. (any-holds-close key cause other actor t differ w.db.interventions ∙ h.0, h.1, h.2);
  }

  Keeps-revive_if_free :
      (rows : List InterventionRow) (w : World)
      → ¬ (rows ≡ [])
      → H w
      → H (revive_if_free env key actor rows w).1
  unfolding revive_if_free pure
  Keeps-revive_if_free [] w some_left h = absurd (some_left refl)
  Keeps-revive_if_free (r ∷ rest) w some_left h = h

  Keeps-close_and_revive : Keeps H (close_and_revive env key cause actor)
  unfolding close_and_revive H Held
  Keeps-close_and_revive =
      Keeps-bind _ _ (search (quiet_rules, Held-IsQuiet, close_rows-Suits)) (λ u.
        Triple-bind _ _ (query-Triple H (Held-IsQuiet key other routes sent) env _) (λ rows w q.
          Keeps-revive_if_free rows w
            (λ none_left.
              any-holds-holds_route key other w.db.interventions q.0.0 (sym q.1 ∙ none_left))
            q.0))

  Keeps-revive_route : Keeps H (revive_route env key cause actor)
  unfolding revive_route ensure_table gov_frozen H
  Keeps-revive_route = search (quiet_rules, Held-IsQuiet, Keeps-close_and_revive) depth 14

-- While another cause holds a route, `reviveRoute` by any cause (an administrator's included) sends
-- no transaction, leaves the routes table as it is and leaves the route held by that other cause,
-- whatever fails on the way.
pub revive_route-held :
    (env : Env) (key : RouteKey) (cause other : Cause) (actor : String) (w : World)
    → cause_eq cause other ≡ false
    → is_held key other w.db ≡ true
    → let after = (revive_route env key cause actor w).1 in
      (is_held key other after.db ≡ true)
      × (after.db.routes ≡ w.db.routes)
      × (submissions after.log ≡ submissions w.log)
unfolding H Held
revive_route-held env key cause other actor w differ held =
    (Keeps-revive_route env key cause other actor differ w.db.routes (submissions w.log)).at w
      (held, refl, refl)
