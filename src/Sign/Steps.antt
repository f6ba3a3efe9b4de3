-- ===== src/Sign/Steps.antt =====
-- What a part of a body has passed, where the whole call ends in a value that is not that of the early
-- returns.
use schnorr.Common.{ℕ, ◌≡◌, refl, List, Bool, true, false, Option, none, some, ◌==◌, not, length}
use schnorr.Run.{
  terminates, Outcome, Run, returns, throws, faults, out_of_fuel, finish, call, next, or_return,
  return_if, returns-injective, ◌>>=◌, ◌>>◌,
}
use schnorr.OpenSsl.{OpenSsl}
use schnorr.Verify.{octets_or_return}

module _ {R A B : Type 0} where
  pub or_return-then :
      (o : Option A) (r : R) (f : A → Run R B) (g : B → Run R R) (x : R)
      → ¬ (r ≡ x)
      → finish (or_return o r >>= f >>= g) ≡ returns x
      → (a : A) × (o ≡ some a) × (finish (f a >>= g) ≡ returns x)
  or_return-then none r f g x ne h = absurd (ne (returns-injective h))
  or_return-then (some a) r f g x ne h = (a, refl, h)

  pub call-then :
      (o : Outcome A) (f : A → Run R B) (g : B → Run R R) (x : R)
      → finish (call o >>= f >>= g) ≡ returns x
      → (a : A) × (o ≡ returns a) × (finish (f a >>= g) ≡ returns x)
  call-then (returns a) f g x h = (a, refl, h)
  call-then (throws e) f g x h = cc
  call-then faults f g x h = cc
  call-then out_of_fuel f g x h = cc
  call-then terminates f g x h = cc

guarded-then :
    {R B : Type 0} (b : Bool) (r : R) (xs : List ℕ) (f : List ℕ → Run R B) (g : B → Run R R) (x : R)
    → ¬ (r ≡ x)
    → finish ((return_if b r >> next xs) >>= f >>= g) ≡ returns x
    → (b ≡ false) × (finish (f xs >>= g) ≡ returns x)
guarded-then true r xs f g x ne h = absurd (ne (returns-injective h))
guarded-then false r xs f g x ne h = (refl, h)

pub octets_or_return-then :
    {R B : Type 0} (o : OpenSsl) (p : o.Point) (r : R) (f : List ℕ → Run R B) (g : B → Run R R)
    (x : R)
    → ¬ (r ≡ x)
    → finish (octets_or_return o p r >>= f >>= g) ≡ returns x
    → (not (length (o.ec_point_point2oct p 33) == 33) ≡ false)
      × (finish (f (o.ec_point_point2oct p 33) >>= g) ≡ returns x)
octets_or_return-then o p r f g x ne h =
    guarded-then (not (length (o.ec_point_point2oct p 33) == 33)) r (o.ec_point_point2oct p 33) f g
      x ne h
