-- ===== src/Run/Both.antt =====
-- Two bodies that take the same steps, over two representations of what they work on.
use schnorr.Common.{◌≡◌, refl, Bool, true, false, Option, none, some}
use schnorr.Run.{
  bind_assoc, Run, Outcome, Exception, returns, throws, faults, out_of_fuel, terminates, finish,
  finish-call, next, ◌>>◌, return_if, or_return, or_throw, called_or_return, wraps_if, deref, call,
  ◌>>=◌,
}

-- Both end in the same way, with values that `R` relates.
abbrev pub Both : {A B : Type 0} → (A → B → Type 0) → Outcome A → Outcome B → Type 0
Both R (returns a) (returns b) = R a b
Both R (throws e) (throws e') = e ≡ e'
Both R faults faults = Unit
Both R out_of_fuel out_of_fuel = Unit
Both R terminates terminates = Unit
Both R _ _ = ⊥

abbrev pub mapped : {A B : Type 0} → (A → B) → Option A → Option B
mapped f none = none
mapped f (some a) = some (f a)

module _ {S T : Type 0} (R : S → T → Type 0) where
  pub return_if-Both :
      (b : Bool) (r : S) (r' : T) (k : Run S S) (k' : Run T T)
      → R r r'
      → Both R (finish k) (finish k')
      → Both R (finish (return_if b r >> k)) (finish (return_if b r' >> k'))
  return_if-Both true r r' k k' h t = h
  return_if-Both false r r' k k' h t = t

  pub or_return-Both :
      {A : Type 0} (m : Option A) (r : S) (r' : T) (f : A → Run S S) (g : A → Run T T)
      → R r r'
      → ((a : A) → Both R (finish (f a)) (finish (g a)))
      → Both R (finish (or_return m r >>= f)) (finish (or_return m r' >>= g))
  or_return-Both none r r' f g h t = h
  or_return-Both (some a) r r' f g h t = t a

  called_or_return-Both :
      {A : Type 0} (m : Outcome (Option A)) (r : S) (r' : T) (f : A → Run S S) (g : A → Run T T)
      → R r r'
      → ((a : A) → Both R (finish (f a)) (finish (g a)))
      → Both R (finish (called_or_return m r >>= f)) (finish (called_or_return m r' >>= g))
  called_or_return-Both (returns none) r r' f g h t = h
  called_or_return-Both (returns (some a)) r r' f g h t = t a
  called_or_return-Both (throws e) r r' f g h t = refl
  called_or_return-Both faults r r' f g h t = tt
  called_or_return-Both out_of_fuel r r' f g h t = tt
  called_or_return-Both terminates r r' f g h t = tt

  -- Calls with arguments that are equal.
  pub or_return_same-Both :
      {A : Type 0} (m n : Option A) (r : S) (r' : T) (f : A → Run S S) (g : A → Run T T)
      → m ≡ n
      → R r r'
      → ((a : A) → Both R (finish (f a)) (finish (g a)))
      → Both R (finish (or_return m r >>= f)) (finish (or_return n r' >>= g))
  or_return_same-Both m n r r' f g e h t = rw e (or_return-Both n r r' f g h t)

  -- The same of calls that may not come back.
  pub called_or_return_same-Both :
      {A : Type 0} (m n : Outcome (Option A)) (r : S) (r' : T) (f : A → Run S S) (g : A → Run T T)
      → m ≡ n
      → R r r'
      → ((a : A) → Both R (finish (f a)) (finish (g a)))
      → Both R (finish (called_or_return m r >>= f)) (finish (called_or_return n r' >>= g))
  called_or_return_same-Both m n r r' f g e h t = rw e (called_or_return-Both n r r' f g h t)

  pub wraps_if-Both :
      (b : Bool) (k : Run S S) (k' : Run T T)
      → Both R (finish k) (finish k')
      → Both R (finish (wraps_if b >> k)) (finish (wraps_if b >> k'))
  wraps_if-Both true k k' t = tt
  wraps_if-Both false k k' t = t

  -- A test, and then a value that a function of its own gives.
  pub tested-Both :
      {A : Type 0} (b : Bool) (r : S) (r' : T) (x : A) (f : A → Run S S) (g : A → Run T T)
      → R r r'
      → Both R (finish (f x)) (finish (g x))
      → Both R
          (finish ((return_if b r >> next x) >>= f))
          (finish ((return_if b r' >> next x) >>= g))
  tested-Both true r r' x f g h t = h
  tested-Both false r r' x f g h t = t

  pub or_throw-Both :
      {A : Type 0} (m : Option A) (x : Exception) (f : A → Run S S) (g : A → Run T T)
      → ((a : A) → Both R (finish (f a)) (finish (g a)))
      → Both R (finish (or_throw m x >>= f)) (finish (or_throw m x >>= g))
  or_throw-Both none x f g t = refl
  or_throw-Both (some a) x f g t = t a

  -- A pointer, and what it points at.
  pub deref-Both :
      {A B : Type 0} (v : A → B) (p : Option A) (f : A → Run S S) (g : B → Run T T)
      → ((a : A) → p ≡ some a → Both R (finish (f a)) (finish (g (v a))))
      → Both R (finish (deref p >>= f)) (finish (deref (mapped v p) >>= g))
  deref-Both v none f g t = tt
  deref-Both v (some a) f g t = t a refl

  -- The same pointer.
  pub deref_same-Both :
      {A : Type 0} (p : Option A) (f : A → Run S S) (g : A → Run T T)
      → ((a : A) → Both R (finish (f a)) (finish (g a)))
      → Both R (finish (deref p >>= f)) (finish (deref p >>= g))
  deref_same-Both none f g t = tt
  deref_same-Both (some a) f g t = t a

  pub call-Both :
      {A : Type 0} (m : Outcome A) (f : A → Run S S) (g : A → Run T T)
      → ((a : A) → Both R (finish (f a)) (finish (g a)))
      → Both R (finish (call m >>= f)) (finish (call m >>= g))
  call-Both (returns a) f g t = t a
  call-Both (throws x) f g t = refl
  call-Both faults f g t = tt
  call-Both out_of_fuel f g t = tt
  call-Both terminates f g t = tt

  -- Calls that end in the same way.
  pub calls-Both :
      {A B : Type 0} (Q : A → B → Type 0) (m : Outcome A) (n : Outcome B) (f : A → Run S S)
      (g : B → Run T T)
      → Both Q m n
      → ((a : A) (b : B) → Q a b → Both R (finish (f a)) (finish (g b)))
      → Both R (finish (call m >>= f)) (finish (call n >>= g))
  calls-Both Q (returns a) (returns b) f g h t = t a b h
  calls-Both Q (throws x) (throws y) f g h t = h
  calls-Both Q faults faults f g h t = tt
  calls-Both Q out_of_fuel out_of_fuel f g h t = tt
  calls-Both Q terminates terminates f g h t = tt
  calls-Both Q _ _ f g h t = absurd h

  -- Calls in the last place.
  pub last-Both :
      (m : Outcome S) (n : Outcome T) → Both R m n → Both R (finish (call m)) (finish (call n))
  last-Both m n h = rw (finish-call m, finish-call n) h

  -- A body inside another one.
  pub assoc-Both :
      {A B C D : Type 0} (m : Run S A) (f : A → Run S B) (k : B → Run S S) (m' : Run T C)
      (f' : C → Run T D) (k' : D → Run T T)
      → Both R (finish (m >>= (λ a. f a >>= k))) (finish (m' >>= (λ a. f' a >>= k')))
      → Both R (finish (m >>= f >>= k)) (finish (m' >>= f' >>= k'))
  assoc-Both m f k m' f' k' h = rw (bind_assoc m f k, bind_assoc m' f' k') h
