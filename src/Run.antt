-- ===== src/Run.antt =====
-- How a call of the C++ code can end, and early returns inside a body.
pub mod Ends
pub mod Both
pub mod Settles
pub mod Spares
use schnorr.Common.{◌≡◌, refl, Bool, true, false, Option, none, some}

-- The exceptions that the code throws.
pub data Exception : Type 0 where
  bad_alloc std_exception invalid_argument : Exception

-- How a call ends. `faults` is undefined behaviour: a read outside a vector, or through a null
-- pointer. `out_of_fuel` is a loop that has not ended within its fuel. `terminates` is
-- `std::terminate`.
pub data Outcome (A : Type 0) : Type 0 where
  returns : A → Outcome A
  throws : Exception → Outcome A
  faults : Outcome A
  out_of_fuel : Outcome A
  terminates : Outcome A

-- A part of a body: it goes on with a value, or it ends the whole call of result type `R`.
pub data Run (R A : Type 0) : Type 0 where
  next : A → Run R A
  stop : Outcome R → Run R A

infixl 5 ◌>>=◌ ◌>>◌
abbrev pub ◌>>=◌ : {R A B : Type 0} → Run R A → (A → Run R B) → Run R B
next a >>= f = f a
stop r >>= f = stop r

abbrev pub ◌>>◌ : {R B : Type 0} → Run R (Unit {0}) → Run R B → Run R B
m >> k = m >>= λ _. k

-- The whole call, whose last value is its result.
abbrev pub finish : {R : Type 0} → Run R R → Outcome R
finish (next a) = returns a
finish (stop r) = r

-- `if (b) return r;`
abbrev pub return_if : {R : Type 0} → Bool → R → Run R (Unit {0})
return_if true r = stop (returns r)
return_if false r = next tt

-- The value that a call of the library gives, or `return r` where it reports failure.
abbrev pub or_return : {R A : Type 0} → Option A → R → Run R A
or_return none r = stop (returns r)
or_return (some a) r = next a

-- The same for a call of the library that may not come back.
abbrev pub called_or_return : {R A : Type 0} → Outcome (Option A) → R → Run R A
called_or_return (returns none) r = stop (returns r)
called_or_return (returns (some a)) r = next a
called_or_return (throws e) r = stop (throws e)
called_or_return faults r = stop faults
called_or_return out_of_fuel r = stop out_of_fuel
called_or_return terminates r = stop terminates

abbrev pub or_throw : {R A : Type 0} → Option A → Exception → Run R A
or_throw none e = stop (throws e)
or_throw (some a) e = next a

abbrev pub throw_if : {R : Type 0} → Bool → Exception → Run R (Unit {0})
throw_if true e = stop (throws e)
throw_if false e = next tt

-- A loop that is given up, where its counter comes back to 0.
abbrev pub wraps_if : {R : Type 0} → Bool → Run R (Unit {0})
wraps_if true = stop out_of_fuel
wraps_if false = next tt

-- A pointer that is dereferenced.
abbrev pub deref : {R A : Type 0} → Option A → Run R A
deref none = stop faults
deref (some a) = next a

-- A call inside another body.
abbrev pub call : {R A : Type 0} → Outcome A → Run R A
call (returns a) = next a
call (throws e) = stop (throws e)
call faults = stop faults
call out_of_fuel = stop out_of_fuel
call terminates = stop terminates

-- A function that is `noexcept`.
abbrev pub no_except : {R : Type 0} → Outcome R → Outcome R
no_except (throws e) = terminates
no_except (returns a) = returns a
no_except faults = faults
no_except out_of_fuel = out_of_fuel
no_except terminates = terminates

-- `try { … } catch (const std::exception&) { return r; }`
abbrev pub catch_return : {R : Type 0} → Outcome R → R → Outcome R
catch_return (throws e) r = returns r
catch_return (returns a) r = returns a
catch_return faults r = faults
catch_return out_of_fuel r = out_of_fuel
catch_return terminates r = terminates

-- What a call that ended in `true` has passed, where every early return is `false`.
pub or_return-true :
    {A : Type 0} (o : Option A) (f : A → Run Bool Bool)
    → finish (or_return o false >>= f) ≡ returns true
    → (a : A) × (o ≡ some a) × (finish (f a) ≡ returns true)
or_return-true none f h = cc
or_return-true (some a) f h = (a, refl, h)

pub called_or_return-true :
    {A : Type 0} (o : Outcome (Option A)) (f : A → Run Bool Bool)
    → finish (called_or_return o false >>= f) ≡ returns true
    → (a : A) × (o ≡ returns (some a)) × (finish (f a) ≡ returns true)
called_or_return-true (returns none) f h = cc
called_or_return-true (returns (some a)) f h = (a, refl, h)
called_or_return-true (throws e) f h = cc
called_or_return-true faults f h = cc
called_or_return-true out_of_fuel f h = cc
called_or_return-true terminates f h = cc

pub or_throw-true :
    {A : Type 0} (o : Option A) (e : Exception) (f : A → Run Bool Bool)
    → finish (or_throw o e >>= f) ≡ returns true
    → (a : A) × (o ≡ some a) × (finish (f a) ≡ returns true)
or_throw-true none e f h = cc
or_throw-true (some a) e f h = (a, refl, h)

pub return_if-true :
    (b : Bool) (k : Run Bool Bool)
    → finish (return_if b false >> k) ≡ returns true
    → (b ≡ false) × (finish k ≡ returns true)
return_if-true true k h = cc
return_if-true false k h = (refl, h)

pub call-true :
    {A : Type 0} (o : Outcome A) (f : A → Run Bool Bool)
    → finish (call o >>= f) ≡ returns true
    → (a : A) × (o ≡ returns a) × (finish (f a) ≡ returns true)
call-true (returns a) f h = (a, refl, h)
call-true (throws e) f h = cc
call-true faults f h = cc
call-true out_of_fuel f h = cc
call-true terminates f h = cc

pub catch_return-true : (o : Outcome Bool) → catch_return o false ≡ returns true → o ≡ returns true
catch_return-true (returns a) h = h
catch_return-true (throws e) h = cc
catch_return-true faults h = cc
catch_return-true out_of_fuel h = cc
catch_return-true terminates h = cc

pub returns-injective : {A : Type 0} {a b : A} → returns a ≡ returns b → a ≡ b
returns-injective h = cc

-- A call in the last place has the outcome of what it calls.
pub finish-call : {A : Type 0} (o : Outcome A) → finish (call o) ≡ o
finish-call (returns a) = refl
finish-call (throws e) = refl
finish-call faults = refl
finish-call out_of_fuel = refl
finish-call terminates = refl

-- The same steps forwards: a body whose next step gives `a` ends as the rest does.
module _ {R A : Type 0} where
  pub or_return-step :
      (o : Option A) (r : R) (f : A → Run R R) {a : A} {out : Outcome R}
      → o ≡ some a
      → finish (f a) ≡ out
      → finish (or_return o r >>= f) ≡ out
  or_return-step o r f e h = rw e h

  pub called_or_return-step :
      (o : Outcome (Option A)) (r : R) (f : A → Run R R) {a : A} {out : Outcome R}
      → o ≡ returns (some a)
      → finish (f a) ≡ out
      → finish (called_or_return o r >>= f) ≡ out
  called_or_return-step o r f e h = rw e h

  pub or_throw-step :
      (o : Option A) (x : Exception) (f : A → Run R R) {a : A} {out : Outcome R}
      → o ≡ some a
      → finish (f a) ≡ out
      → finish (or_throw o x >>= f) ≡ out
  or_throw-step o x f e h = rw e h

  pub deref-step :
      (o : Option A) (f : A → Run R R) {a : A} {out : Outcome R}
      → o ≡ some a
      → finish (f a) ≡ out
      → finish (deref o >>= f) ≡ out
  deref-step o f e h = rw e h

  pub call-step :
      (o : Outcome A) (f : A → Run R R) {a : A} {out : Outcome R}
      → o ≡ returns a
      → finish (f a) ≡ out
      → finish (call o >>= f) ≡ out
  call-step o f e h = rw e h

module _ {R : Type 0} where
  pub return_if-step :
      (b : Bool) (r : R) (k : Run R R) {out : Outcome R}
      → b ≡ false
      → finish k ≡ out
      → finish (return_if b r >> k) ≡ out
  return_if-step b r k e h = rw e h

  pub return_if-stop :
      (b : Bool) (r : R) (k : Run R R) → b ≡ true → finish (return_if b r >> k) ≡ returns r
  return_if-stop b r k e = rw e

-- What a call that ended in `x` has passed.
module _ {R A : Type 0} where
  pub or_return-returns :
      (o : Option A) (r : R) (f : A → Run R R) (x : R)
      → ¬ (r ≡ x)
      → finish (or_return o r >>= f) ≡ returns x
      → (a : A) × (o ≡ some a) × (finish (f a) ≡ returns x)
  or_return-returns none r f x ne h = absurd (ne (returns-injective h))
  or_return-returns (some a) r f x ne h = (a, refl, h)

  pub called_or_return-returns :
      (o : Outcome (Option A)) (r : R) (f : A → Run R R) (x : R)
      → ¬ (r ≡ x)
      → finish (called_or_return o r >>= f) ≡ returns x
      → (a : A) × (o ≡ returns (some a)) × (finish (f a) ≡ returns x)
  called_or_return-returns (returns none) r f x ne h = absurd (ne (returns-injective h))
  called_or_return-returns (returns (some a)) r f x ne h = (a, refl, h)
  called_or_return-returns (throws e) r f x ne h = cc
  called_or_return-returns faults r f x ne h = cc
  called_or_return-returns out_of_fuel r f x ne h = cc
  called_or_return-returns terminates r f x ne h = cc

  pub or_throw-returns :
      (o : Option A) (e : Exception) (f : A → Run R R) (x : R)
      → finish (or_throw o e >>= f) ≡ returns x
      → (a : A) × (o ≡ some a) × (finish (f a) ≡ returns x)
  or_throw-returns none e f x h = cc
  or_throw-returns (some a) e f x h = (a, refl, h)

  pub deref-returns :
      (o : Option A) (f : A → Run R R) (x : R)
      → finish (deref o >>= f) ≡ returns x
      → (a : A) × (o ≡ some a) × (finish (f a) ≡ returns x)
  deref-returns none f x h = cc
  deref-returns (some a) f x h = (a, refl, h)

  pub call-returns :
      (o : Outcome A) (f : A → Run R R) (x : R)
      → finish (call o >>= f) ≡ returns x
      → (a : A) × (o ≡ returns a) × (finish (f a) ≡ returns x)
  call-returns (returns a) f x h = (a, refl, h)
  call-returns (throws e) f x h = cc
  call-returns faults f x h = cc
  call-returns out_of_fuel f x h = cc
  call-returns terminates f x h = cc

pub return_if-returns :
    {R : Type 0} (b : Bool) (r : R) (k : Run R R) (x : R)
    → ¬ (r ≡ x)
    → finish (return_if b r >> k) ≡ returns x
    → (b ≡ false) × (finish k ≡ returns x)
return_if-returns true r k x ne h = absurd (ne (returns-injective h))
return_if-returns false r k x ne h = (refl, h)

pub wraps_if-step :
    {R : Type 0} (b : Bool) (k : Run R R) {out : Outcome R}
    → b ≡ false
    → finish k ≡ out
    → finish (wraps_if b >> k) ≡ out
wraps_if-step b k e h = rw e h

pub wraps_if-returns :
    {R : Type 0} (b : Bool) (k : Run R R) (x : R)
    → finish (wraps_if b >> k) ≡ returns x
    → (b ≡ false) × (finish k ≡ returns x)
wraps_if-returns true k x h = cc
wraps_if-returns false k x h = (refl, h)

pub bind_assoc :
    {R A B C : Type 0} (m : Run R A) (f : A → Run R B) (g : B → Run R C)
    → m >>= f >>= g ≡ m >>= (λ a. f a >>= g)
bind_assoc (next a) f g = refl
bind_assoc (stop r) f g = refl

pub next-step :
    {R A : Type 0} (m : Run R A) (f : A → Run R R) {a : A} {out : Outcome R}
    → m ≡ next a
    → finish (f a) ≡ out
    → finish (m >>= f) ≡ out
next-step m f e h = rw e h
