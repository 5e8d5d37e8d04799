-- ===== src/TxFlow/Balance.antt =====
-- dapp/src/hooks/useTxFlow.ts: the successes that are announced, and the calls of `onSettled`.
use sentinel_soroban_v.Base.{
  ℕ, suc, ◌+◌, ◌≤◌, Bool, true, false, Option, none, some, List, [], ◌∷◌, ◌≡◌, refl, sym, ◌∙◌, inl,
  inr, arith, count, select, not, ◌==◌, if◌then◌else◌, Bool-cases,
}
use sentinel_soroban_v.Money.{Units}
use sentinel_soroban_v.TxFlow.{
  Outcome, succeeded, failed, Effect, announce, settle, invalidate, toast_success, Timer, Flow,
  Options, Network, Success, new, is_idle, transition, set_timeout, clear_timeout, refuse, run,
  toasts, invalidations, settlements, complete, collapse, fire, unmount,
}
use sentinel_soroban_v.TxFlow.Errors.{Thrown}
use sentinel_soroban_v.TxFlow.Relation.{
  Phase, opened, Step, call, report, fulfil, reject, elapse, leave, Reach, here, next,
}
use sentinel_soroban_v.TxFlow.Invariant.{IsCoherent, pending_lem, clear-one, Reach-IsCoherent}

abbrev is_announce : Effect → Bool
is_announce announce = true
is_announce _ = false

abbrev is_settled : Effect → Bool
is_settled (settle succeeded) = true
is_settled _ = false

-- The successes that were announced to the application.
abbrev pub announced : Flow → ℕ
announced f = count is_announce f.effects

-- The calls of `onSettled("success")`.
abbrev pub settled : Flow → ℕ
settled f = count is_settled f.effects

abbrev pub for_success : Option Outcome → Bool
for_success (some succeeded) = true
for_success _ = false

-- The timers that will make such a call.
abbrev pub waiting : Flow → ℕ
waiting f = count (λ t. for_success t.settles) f.timers

module _ (p : Effect → Bool) (no_keys : (key : List Units) → p (invalidate key) ≡ false)
    (no_toasts : (s : Units) (hash : Option Units) → p (toast_success s hash) ≡ false) where
  count-invalidations :
      (keys : List (List Units)) (effects : List Effect)
      → count p (invalidations keys effects) ≡ count p effects
  unfolding invalidations
  count-invalidations [] effects = refl
  count-invalidations (key ∷ rest) effects =
      rw (count-invalidations rest (invalidate key ∷ effects), no_keys key) refl

  count-toasts :
      (s hash : Option Units) (effects : List Effect)
      → count p (toasts s hash effects) ≡ count p effects
  unfolding toasts
  count-toasts none hash effects = refl
  count-toasts (some []) hash effects = refl
  count-toasts (some (c ∷ s)) hash effects = rw (no_toasts (c ∷ s) hash) refl

pub complete-settled : (o : Options) (r : Success) (f : Flow) → settled (complete o r f) ≡ settled f
unfolding complete transition set_timeout
complete-settled o r f =
    rw
      (
        count-invalidations is_settled (λ key. refl) (λ s hash. refl) o.invalidate_keys
            (toasts r.message r.tx_hash (announce ∷ f.effects)),
        count-toasts is_settled (λ key. refl) (λ s hash. refl) r.message r.tx_hash
            (announce ∷ f.effects),
      )
      refl

complete-announced :
    (o : Options) (r : Success) (f : Flow) → announced (complete o r f) ≡ suc (announced f)
unfolding complete transition set_timeout
complete-announced o r f =
    rw
      (
        count-invalidations is_announce (λ key. refl) (λ s hash. refl) o.invalidate_keys
            (toasts r.message r.tx_hash (announce ∷ f.effects)),
        count-toasts is_announce (λ key. refl) (λ s hash. refl) r.message r.tx_hash
            (announce ∷ f.effects),
      )
      refl

pub complete-waiting :
    (o : Options) (r : Success) (f : Flow) → waiting (complete o r f) ≡ suc (waiting f)
unfolding complete transition set_timeout
complete-waiting o r f = refl

count-if :
    (p : Effect → Bool) (b : Bool) (e : Effect) (effects : List Effect)
    → p e ≡ false
    → count p (if b then e ∷ effects else effects) ≡ count p effects
count-if p true e effects h = rw h refl
count-if p false e effects h = refl

-- The parts of a flow that its balance is about.
record IsSame (f g : Flow) : Type 0 where
  settles : settled g ≡ settled f
  announces : announced g ≡ announced f
  waits : waiting g ≡ waiting f
  stays : g.mounted ≡ f.mounted

collapse-IsSame :
    (o : Options) (net : Network) (e : Thrown) (f : Flow) → IsSame f (collapse o net e f)
unfolding collapse transition set_timeout
collapse-IsSame o net e f = record {
  settles = count-if is_settled o.notify_error _ f.effects refl;
  announces = count-if is_announce o.notify_error _ f.effects refl;
  waits = refl;
  stays = refl;
}

run-IsSame :
    (o : Options) (net : Network) (p : Phase) (f : Flow) → IsSame f (opened p (run o net f))
unfolding run refuse transition set_timeout
run-IsSame o net p f = elim (Bool-cases (is_idle f.state)) [
  | inr busy ↦ rw busy (record { settles = refl; announces = refl; waits = refl; stays = refl })
  | inl quiet ↦ elim (Bool-cases net.mismatch) [
    | inl away ↦
        rw (quiet, away) (record { settles = refl; announces = refl; waits = refl; stays = refl })
    | inr fits ↦
        rw (quiet, fits) (record { settles = refl; announces = refl; waits = refl; stays = refl })
  ]
]

pub fire-balance :
    (t : Timer) (f : Flow)
    → f.timers ≡ t ∷ []
    → (settled (fire t f) ≡ settled f + waiting f) × (waiting (fire t f) ≡ 0)
unfolding fire transition
fire-balance t f e = rw (clear-one t e, e) (count-settlements t.settles f.effects, refl)
  where
    count-settlements :
        (o : Option Outcome) (effects : List Effect)
        → count is_settled (settlements o effects)
          ≡ count is_settled effects + (if for_success o then 1 else 0)
    count-settlements none effects = omega arith
    count-settlements (some succeeded) effects = omega arith
    count-settlements (some failed) effects = omega arith

count-clear :
    (p : Timer → Bool) (ref : Option ℕ) (ts : List Timer)
    → count p (clear_timeout ref ts) ≤ count p ts
unfolding clear_timeout
count-clear p none ts = omega arith
count-clear p (some id) ts = count-select ts
  where
    count-select : (ts : List Timer) → count p (select (λ t. not (t.id == id)) ts) ≤ count p ts
    count-select [] = omega arith
    count-select (t ∷ ts) = ground (arith, count-select ts)

-- Every success that was announced has settled or has its timer, unless the unmount cleared it.
pub record IsBalanced (f : Flow) : Type 0 where
  pub at_most : settled f + waiting f ≤ announced f
  pub exact : f.mounted ≡ true → settled f + waiting f ≡ announced f

IsSame-IsBalanced : {f g : Flow} → IsSame f g → IsBalanced f → IsBalanced g
IsSame-IsBalanced same h = record {
  at_most = omega (arith, same.settles, same.announces, same.waits, h.at_most);
  exact =
      λ m. omega (arith, same.settles, same.announces, same.waits, h.exact (sym same.stays ∙ m));
}

complete-mounted :
    (o : Options) (r : Success) (f : Flow) → (complete o r f).mounted ≡ true → f.mounted ≡ true
unfolding complete transition set_timeout
complete-mounted o r f m = m

complete-IsBalanced :
    (o : Options) (r : Success) (f : Flow) → IsBalanced f → IsBalanced (complete o r f)
complete-IsBalanced o r f h = record {
  at_most =
      omega (
        arith,
        complete-settled o r f,
        complete-announced o r f,
        complete-waiting o r f,
        h.at_most,
      );
  exact = λ m. omega (
    arith,
    complete-settled o r f,
    complete-announced o r f,
    complete-waiting o r f,
    h.exact (complete-mounted o r f m),
  );
}

fire-mounted : (t : Timer) (f : Flow) → (fire t f).mounted ≡ true → f.mounted ≡ true
unfolding fire transition
fire-mounted t f m = m

fire-announced : (t : Timer) (f : Flow) → announced (fire t f) ≡ announced f
unfolding fire transition
fire-announced t f = count-settlements t.settles f.effects
  where
    count-settlements :
        (o : Option Outcome) (effects : List Effect)
        → count is_announce (settlements o effects) ≡ count is_announce effects
    count-settlements none effects = refl
    count-settlements (some outcome) effects = refl

fire-IsBalanced : (t : Timer) (f : Flow) → f.timers ≡ t ∷ [] → IsBalanced f → IsBalanced (fire t f)
fire-IsBalanced t f only h =
    let (moved, gone) = fire-balance t f only in
    record {
      at_most = omega (arith, moved, gone, fire-announced t f, h.at_most);
      exact = λ m. omega (arith, moved, gone, fire-announced t f, h.exact (fire-mounted t f m));
    }

Step-IsBalanced : {f g : Flow} → Step f g → IsCoherent f → IsBalanced f → IsBalanced g
unfolding transition unmount
Step-IsBalanced {f} (call o net p m) c h = IsSame-IsBalanced (run-IsSame o net p f) h
Step-IsBalanced (report p busy) c h = record { at_most = h.at_most; exact = h.exact }
Step-IsBalanced {f} (fulfil o r busy) c h = complete-IsBalanced o r f h
Step-IsBalanced {f} (reject o net e busy) c h = IsSame-IsBalanced (collapse-IsSame o net e f) h
Step-IsBalanced {f} (elapse t p) c h = fire-IsBalanced t f (pending_lem c p).1 h
Step-IsBalanced {f} (leave m) c h = record {
  at_most = omega (arith, h.at_most, count-clear (λ t. for_success t.settles) f.timer_ref f.timers);
  exact = λ m'. ground arith;
}

new-IsBalanced : IsBalanced new
new-IsBalanced = record { at_most = omega arith; exact = λ m. refl }

Reach-IsBalanced : {f : Flow} → Reach new f → IsBalanced f
Reach-IsBalanced here = new-IsBalanced
Reach-IsBalanced (next r step) = Step-IsBalanced step (Reach-IsCoherent r) (Reach-IsBalanced r)

-- Calls that were made and timers that will make one, against successes, whether the component is
-- mounted or not.
abbrev pub Balances : Bool → ℕ → ℕ → ℕ → Type 0
Balances true calls timers successes = calls + timers ≡ successes
Balances false calls timers successes = calls + timers ≤ successes

either_count :
    (b : Bool) (calls timers successes : ℕ)
    → calls + timers ≤ successes
    → (b ≡ true → calls + timers ≡ successes)
    → Balances b calls timers successes
either_count true calls timers successes at_most exact = exact refl
either_count false calls timers successes at_most exact = at_most

-- Whatever the events and their order: while the component is mounted, every success that was
-- announced has had its one call of `onSettled("success")` or has the one timer that will make it;
-- after an unmount, `onSettled("success")` has still been called at most once for each success.
pub Reach-Balances :
    {f : Flow} → Reach new f → Balances f.mounted (settled f) (waiting f) (announced f)
Reach-Balances {f} r =
    let balanced = Reach-IsBalanced r in
    either_count f.mounted _ _ _ balanced.at_most balanced.exact
