-- ===== src/Run/Settles.antt =====
-- Bodies that end with a value or an exception, and with nothing else.
use schnorr.Common.{◌≡◌, refl, Bool, true, false, Option, none, some}
use schnorr.Run.{
  Run, Outcome, Exception, returns, throws, faults, out_of_fuel, terminates, finish, next, ◌>>◌,
  return_if, or_return, or_throw, called_or_return, deref, call, catch_return, ◌>>=◌,
}

abbrev pub Settles : {R : Type 0} → Outcome R → Type 0
Settles (returns x) = Unit
Settles (throws e) = Unit
Settles _ = ⊥

module _ {R : Type 0} where
  pub return_if-Settles :
      (b : Bool) (r : R) (k : Run R R) → Settles (finish k) → Settles (finish (return_if b r >> k))
  return_if-Settles true r k t = tt
  return_if-Settles false r k t = t

  -- What stands behind the test knows that it was passed.
  pub return_if_passed-Settles :
      (b : Bool) (r : R) (k : Run R R)
      → (b ≡ false → Settles (finish k))
      → Settles (finish (return_if b r >> k))
  return_if_passed-Settles true r k t = tt
  return_if_passed-Settles false r k t = t refl

  pub tested-Settles :
      {A : Type 0} (b : Bool) (r : R) (x : A) (f : A → Run R R)
      → Settles (finish (f x))
      → Settles (finish ((return_if b r >> next x) >>= f))
  tested-Settles true r x f t = tt
  tested-Settles false r x f t = t

  pub or_return-Settles :
      {A : Type 0} (m : Option A) (r : R) (f : A → Run R R)
      → ((a : A) → Settles (finish (f a)))
      → Settles (finish (or_return m r >>= f))
  or_return-Settles none r f t = tt
  or_return-Settles (some a) r f t = t a

  -- A call that comes back.
  pub called_or_return-Settles :
      {A : Type 0} (m : Outcome (Option A)) (r : R) (f : A → Run R R) {x : Option A}
      → m ≡ returns x
      → ((a : A) → Settles (finish (f a)))
      → Settles (finish (called_or_return m r >>= f))
  called_or_return-Settles m r f {x} e t = rw e (or_return-Settles x r f t)

  pub or_throw-Settles :
      {A : Type 0} (m : Option A) (e : Exception) (f : A → Run R R)
      → ((a : A) → Settles (finish (f a)))
      → Settles (finish (or_throw m e >>= f))
  or_throw-Settles none e f t = tt
  or_throw-Settles (some a) e f t = t a

  -- A pointer that is known not to be null.
  pub deref-Settles :
      {A : Type 0} (p : Option A) (f : A → Run R R) {a : A}
      → p ≡ some a
      → ((a : A) → Settles (finish (f a)))
      → Settles (finish (deref p >>= f))
  deref-Settles none f e t = cc
  deref-Settles (some a) f e t = t a

  pub call-Settles :
      {A : Type 0} (m : Outcome A) (f : A → Run R R)
      → Settles m
      → ((a : A) → Settles (finish (f a)))
      → Settles (finish (call m >>= f))
  call-Settles (returns a) f h t = t a
  call-Settles (throws e) f h t = tt
  call-Settles faults f h t = absurd h
  call-Settles out_of_fuel f h t = absurd h
  call-Settles terminates f h t = absurd h

  pub catch_return-Settles :
      (m : Outcome R) (r : R) → Settles m → (x : R) × (catch_return m r ≡ returns x)
  catch_return-Settles (returns x) r h = (x, refl)
  catch_return-Settles (throws e) r h = (r, refl)
  catch_return-Settles faults r h = absurd h
  catch_return-Settles out_of_fuel r h = absurd h
  catch_return-Settles terminates r h = absurd h

-- A `try` block in the last place, behind a test.
pub return_if-returns_some :
    {R : Type 0} (b : Bool) (r : R) (k : Run R R) {x : R}
    → finish k ≡ returns x
    → (y : R) × (finish (return_if b r >> k) ≡ returns y)
return_if-returns_some true r k e = (r, refl)
return_if-returns_some false r k {x} e = (x, e)
