-- ===== src/World/Keeps/Outcomes.antt =====
-- What actions end with, whatever they begin with.
use sentinel_soroban_v.Base.{Bool, true, false, if◌then◌else◌}
use sentinel_soroban_v.World.Events.{Failure}
use sentinel_soroban_v.World.Monad.{
  World, Result, ok, err, M, raise, continue, handle, ◌>>=◌, catch,
}

-- What an action ends with, from any world.
pub record Ends {A : Type 0} (R : Result A × World → Type 0) (m : M A) : Type 0 where
  pub at : (w : World) → R (m w)

-- An outcome that says nothing of exceptions.
pub record IsLax {A : Type 0} (R : Result A × World → Type 0) : Type 0 where
  pub errs : (e : Failure) (w : World) → R (err e, w)

module _ {A B : Type 0} {R : Result B × World → Type 0} where
  Ends-continue :
      (r : Result A) (f : A → M B) (w : World)
      → IsLax R
      → ((a : A) → Ends R (f a))
      → R (continue r f w)
  Ends-continue (ok a) f w lax h = (h a).at w
  Ends-continue (err e) f w lax h = lax.errs e w

  -- Whatever the beginning of a block does, its end decides the outcome.
  pub Ends-bind : (m : M A) (f : A → M B) → IsLax R → ((a : A) → Ends R (f a)) → Ends R (m >>= f)
  unfolding ◌>>=◌
  Ends-bind m f lax h = record { at = λ w. let (r, w') = m w in Ends-continue r f w' lax h }

module _ {A B : Type 0} {Q : Result A × World → Type 0} {R : Result B × World → Type 0} where
  -- The rest of a block starts from what its beginning ends with.
  pub Ends-when :
      (m : M A) (f : A → M B)
      → IsLax R
      → Ends Q m
      → ((a : A) (w : World) → Q (ok a, w) → R (f a w))
      → Ends R (m >>= f)
  unfolding ◌>>=◌
  Ends-when m f lax hm h = record { at = λ w. go (m w) (hm.at w) }
    where
      go : (r : Result A × World) → Q r → R (continue r.0 f r.1)
      go (ok a, w) q = h a w q
      go (err e, w) q = lax.errs e w

  pub Ends-then :
      (m : M A) (f : A → M B)
      → Ends Q m
      → ((r : Result A × World) → Q r → R (continue r.0 f r.1))
      → Ends R (m >>= f)
  unfolding ◌>>=◌
  Ends-then m f hm h = record { at = λ w. h (m w) (hm.at w) }

module _ {B : Type 0} {R : Result B × World → Type 0} where
  pub Ends-if : (b : Bool) (m n : M B) → Ends R m → Ends R n → Ends R (if b then m else n)
  Ends-if true m n hm hn = hm
  Ends-if false m n hm hn = hn

  Ends-handle :
      (r : Result B) (h : Failure → M B) (w : World)
      → R (r, w)
      → ((e : Failure) → Ends R (h e))
      → R (handle r h w)
  Ends-handle (ok a) h w q k = q
  Ends-handle (err e) h w q k = (k e).at w

  pub Ends-catch :
      (m : M B) (h : Failure → M B) → Ends R m → ((e : Failure) → Ends R (h e)) → Ends R (catch m h)
  unfolding catch
  Ends-catch m h hm k = record { at = λ w. let (r, w') = m w in Ends-handle r h w' (hm.at w) k }

  pub Ends-raise : (e : Failure) → IsLax R → Ends R (raise e)
  unfolding raise
  Ends-raise e lax = record { at = lax.errs e }

module _ {B : Type 0} {Q R : Result B × World → Type 0} where
  -- A handler that ends well ends every exception.
  pub Ends-recover :
      (m : M B) (h : Failure → M B)
      → Ends Q m
      → ((a : B) (w : World) → Q (ok a, w) → R (ok a, w))
      → ((e : Failure) → Ends R (h e))
      → Ends R (catch m h)
  unfolding catch
  Ends-recover m h hm weaken k = record { at = λ w. go (m w) (hm.at w) }
    where
      go : (r : Result B × World) → Q r → R (handle r.0 h r.1)
      go (ok a, w) q = weaken a w q
      go (err e, w) q = (k e).at w

pub ruleset ends_rules = (Ends-bind, Ends-if, Ends-catch, Ends-raise)
