-- ===== src/Run/Spares.antt =====
-- Bodies that follow no null pointer and read nothing outside a vector. They may throw, or use up their fuel.
use schnorr.Common.{Bool, true, false, Option, none, some}
use schnorr.Run.{
  Run, Outcome, Exception, returns, throws, faults, out_of_fuel, terminates, finish, next, stop,
  return_if, or_return, or_throw, call, ◌>>=◌,
}

abbrev pub Spares : {R : Type 0} → Outcome R → Type 0
Spares faults = ⊥
Spares terminates = ⊥
Spares _ = Unit

-- The same of a part of a body.
abbrev pub IsSafe : {R A : Type 0} → Run R A → Type 0
IsSafe (next a) = Unit
IsSafe (stop out) = Spares out

module _ {R A : Type 0} where
  pub bind-IsSafe :
      {B : Type 0} (m : Run R A) (f : A → Run R B)
      → IsSafe m
      → ((a : A) → IsSafe (f a))
      → IsSafe (m >>= f)
  bind-IsSafe (next a) f h t = t a
  bind-IsSafe (stop out) f h t = h

  pub or_return-IsSafe : (m : Option A) (r : R) → IsSafe (or_return m r)
  or_return-IsSafe none r = tt
  or_return-IsSafe (some a) r = tt

  pub option-IsSafe :
      {X : Type 0} (m : Option X) (r : Run R A) (f : X → Run R A)
      → IsSafe r
      → ((x : X) → IsSafe (f x))
      → IsSafe (elim m [ none ↦ r | some x ↦ f x ])
  option-IsSafe none r f h t = h
  option-IsSafe (some x) r f h t = t x

  pub bool-IsSafe :
      (b : Bool) (m n : Run R A) → IsSafe m → IsSafe n → IsSafe (elim b [ true ↦ m | false ↦ n ])
  bool-IsSafe true m n h t = h
  bool-IsSafe false m n h t = t

pub or_throw-IsSafe :
    {A : Type 0} (R : Type 0) (m : Option A) (e : Exception) → IsSafe (or_throw {R = R} m e)
or_throw-IsSafe R none e = tt
or_throw-IsSafe R (some a) e = tt

pub call-IsSafe : {A : Type 0} (R : Type 0) (m : Outcome A) → Spares m → IsSafe (call {R = R} m)
call-IsSafe R (returns a) h = tt
call-IsSafe R (throws e) h = tt
call-IsSafe R faults h = absurd h
call-IsSafe R out_of_fuel h = tt
call-IsSafe R terminates h = absurd h

pub return_if-IsSafe : {R : Type 0} (b : Bool) (r : R) → IsSafe (return_if b r)
return_if-IsSafe true r = tt
return_if-IsSafe false r = tt

pub finish-Spares : {R : Type 0} (m : Run R R) → IsSafe m → Spares (finish m)
finish-Spares (next a) h = tt
finish-Spares (stop out) h = h
