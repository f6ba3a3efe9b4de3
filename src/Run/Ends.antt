-- ===== src/Run/Ends.antt =====
-- The values that the body of a function can return, step by step.
use schnorr.Common.{◌≡◌, Bool, true, false, Option, none, some, subst}
use schnorr.Run.{
  Run, Outcome, Exception, returns, throws, faults, out_of_fuel, terminates, finish, ◌>>◌,
  return_if, or_return, or_throw, called_or_return, wraps_if, deref, call, ◌>>=◌,
}

-- The values that a body can return.
abbrev pub Ends : {R : Type 0} → (R → Type 0) → Outcome R → Type 0
Ends P (returns x) = P x
Ends P _ = Unit

pub value_of :
    {R : Type 0} (P : R → Type 0) (m : Outcome R) (x : R) → Ends P m → m ≡ returns x → P x
value_of P m x h e = subst (Ends P) e h

module _ {R : Type 0} (P : R → Type 0) where
  pub return_if-Ends :
      (b : Bool) (r : R) (k : Run R R)
      → P r
      → Ends P (finish k)
      → Ends P (finish (return_if b r >> k))
  return_if-Ends true r k h t = h
  return_if-Ends false r k h t = t

  pub or_return-Ends :
      {A : Type 0} (m : Option A) (r : R) (f : A → Run R R)
      → P r
      → ((a : A) → Ends P (finish (f a)))
      → Ends P (finish (or_return m r >>= f))
  or_return-Ends none r f h t = h
  or_return-Ends (some a) r f h t = t a

  pub called_or_return-Ends :
      {A : Type 0} (m : Outcome (Option A)) (r : R) (f : A → Run R R)
      → P r
      → ((a : A) → Ends P (finish (f a)))
      → Ends P (finish (called_or_return m r >>= f))
  called_or_return-Ends (returns none) r f h t = h
  called_or_return-Ends (returns (some a)) r f h t = t a
  called_or_return-Ends (throws e) r f h t = tt
  called_or_return-Ends faults r f h t = tt
  called_or_return-Ends out_of_fuel r f h t = tt
  called_or_return-Ends terminates r f h t = tt

  pub wraps_if-Ends :
      (b : Bool) (k : Run R R) → Ends P (finish k) → Ends P (finish (wraps_if b >> k))
  wraps_if-Ends true k t = tt
  wraps_if-Ends false k t = t

  pub or_throw-Ends :
      {A : Type 0} (m : Option A) (x : Exception) (f : A → Run R R)
      → ((a : A) → Ends P (finish (f a)))
      → Ends P (finish (or_throw m x >>= f))
  or_throw-Ends none x f t = tt
  or_throw-Ends (some a) x f t = t a

  pub deref-Ends :
      {A : Type 0} (m : Option A) (f : A → Run R R)
      → ((a : A) → Ends P (finish (f a)))
      → Ends P (finish (deref m >>= f))
  deref-Ends none f t = tt
  deref-Ends (some a) f t = t a

  pub call-Ends :
      {A : Type 0} (m : Outcome A) (f : A → Run R R)
      → ((a : A) → Ends P (finish (f a)))
      → Ends P (finish (call m >>= f))
  call-Ends (returns a) f t = t a
  call-Ends (throws x) f t = tt
  call-Ends faults f t = tt
  call-Ends out_of_fuel f t = tt
  call-Ends terminates f t = tt

  -- A call of which something is known.
  pub call_known-Ends :
      {A : Type 0} (Q : A → Type 0) (m : Outcome A) (f : A → Run R R)
      → Ends Q m
      → ((a : A) → Q a → Ends P (finish (f a)))
      → Ends P (finish (call m >>= f))
  call_known-Ends Q (returns a) f h t = t a h
  call_known-Ends Q (throws x) f h t = tt
  call_known-Ends Q faults f h t = tt
  call_known-Ends Q out_of_fuel f h t = tt
  call_known-Ends Q terminates f h t = tt
