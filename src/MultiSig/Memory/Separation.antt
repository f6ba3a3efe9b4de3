-- ===== src/MultiSig/Memory/Separation.antt =====
-- Objects of which no two share a number, and what a call that changes one of them leaves of the others.
use mathlib.Core.Path.{fun_ext}
use mathlib.Core.Option.{some-injective}
use schnorr.Common.{
  ℕ, ◌≤◌, ◌<◌, ◌≡◌, ◌≢◌, ◌⊎◌, inl, inr, refl, sym, ap, ◌∙◌, Option, none, some, arith,
}
use schnorr.Run.Both.{mapped}
use schnorr.OpenSsl.{OpenSsl}
use schnorr.MultiSig.Objects.{NumberObject}
use schnorr.MultiSig.Memory.{view, Left}
use schnorr.MultiSig.Memory.Frames.{Framed, IsInside, Apart}
use schnorr.MultiSig.Memory.Actions.{State, values_of, left_at, left, set_to}

pub eq_cases : (i j : ℕ) → (j ≡ i) ⊎ (j ≢ i)
eq_cases i j = ground arith

set_to-same : {A : Type 0} (f : ℕ → A) (i : ℕ) (x : A) (j : ℕ) → j ≡ i → set_to f i x j ≡ x
set_to-same f i x j e = ground (arith, e)

set_to-other : {A : Type 0} (f : ℕ → A) (i : ℕ) (x : A) (j : ℕ) → j ≢ i → set_to f i x j ≡ f j
set_to-other f i x j ne = ground (arith, ne)

mapped-same :
    {A B : Type 0} (f g : A → B) (p : Option A)
    → ((a : A) → p ≡ some a → f a ≡ g a)
    → mapped f p ≡ mapped g p
mapped-same f g none h = refl
mapped-same f g (some a) h = ap some (h a refl)

module _ (o : OpenSsl) where
  -- Pointers are null or allocated, and no two objects have the same.
  pub record Separate (s : State o) : Type 0 where
    pub inside : (i : ℕ) → IsInside o s.memory (s.handles i)
    pub apart : (i j : ℕ) → i ≢ j → Apart o (s.handles i) (s.handles j)

  module _ (s : State o) (sep : Separate s) (i : ℕ) (own : Option ℕ) (r : Left o) (w : o.World)
      (owns : (a : ℕ) → own ≡ some a → (s.handles i).pointer ≡ some a)
      (framed : Framed o s.memory own r) where
    -- The pointer that is left is the old one, or new.
    left_pointer :
        (a : ℕ)
        → r.1.pointer ≡ some a
        → ((s.handles i).pointer ≡ some a) ⊎ ((s.memory.top ≤ a) × (a < r.0.top))
    left_pointer a e = elim framed.held [
      | inl same ↦ inl (owns a (sym same ∙ e))
      | inr (b, new, le, lt) ↦
          let met : a ≡ b = some-injective _ _ (sym e ∙ new) in
          inr (omega (arith, met), omega (arith, met))
    ]

    view-kept : (j : ℕ) → j ≢ i → view o r.0 (s.handles j) ≡ view o s.memory (s.handles j)
    view-kept j ne =
        ap (λ n. record { number = n; initialized = (s.handles j).initialized })
          (mapped-same r.0.cells s.memory.cells (s.handles j).pointer
            (λ a e. framed.kept a (sep.inside j a e) (λ q. sep.apart j i ne a e (owns a q))))

    pub left-values :
        (x : NumberObject o)
        → view o r.0 r.1 ≡ x
        → values_of o (left_at o s i (r, w)) ≡ left o (values_of o s) i (x, w)
    left-values x shown =
        ap (λ f. record { objects = f; world = w })
          (fun_ext (λ j. elim (eq_cases i j) [
            | inl e ↦
                ap (view o r.0) (set_to-same s.handles i r.1 j e)
                ∙ shown
                ∙ sym (set_to-same (values_of o s).objects i x j e)
            | inr ne ↦
                ap (view o r.0) (set_to-other s.handles i r.1 j ne)
                ∙ view-kept j ne
                ∙ sym (set_to-other (values_of o s).objects i x j ne)
          ]))

    -- The pointers of the objects behind the call.
    pointer-same :
        (j : ℕ)
        → j ≡ i
        → (a : ℕ) → (set_to s.handles i r.1 j).pointer ≡ some a
        → r.1.pointer ≡ some a
    pointer-same j same a e = ap (λ h. h.pointer) (sym (set_to-same s.handles i r.1 j same)) ∙ e

    pointer-other :
        (j : ℕ)
        → j ≢ i
        → (a : ℕ) → (set_to s.handles i r.1 j).pointer ≡ some a
        → (s.handles j).pointer ≡ some a
    pointer-other j ne a e = ap (λ h. h.pointer) (sym (set_to-other s.handles i r.1 j ne)) ∙ e

    left-IsInside : (j : ℕ) → IsInside o r.0 (set_to s.handles i r.1 j)
    left-IsInside j a e = elim (eq_cases i j) [
      | inl same ↦ elim (left_pointer a (pointer-same j same a e)) [
        | inl old ↦ omega (arith, sep.inside i a old, framed.top_le)
        | inr new ↦ new.1
      ]
      | inr ne ↦
          let old = sep.inside j a (pointer-other j ne a e) in omega (arith, old, framed.top_le)
    ]

    -- The object that is left, and another one.
    left_apart : (j : ℕ) → j ≢ i → (a : ℕ) → r.1.pointer ≡ some a → (s.handles j).pointer ≢ some a
    left_apart j ne a e f = elim (left_pointer a e) [
      | inl old ↦ sep.apart j i ne a f old
      | inr new ↦ absurd (omega (arith, sep.inside j a f, new.0))
    ]

    pub left-Separate : Separate (left_at o s i (r, w))
    left-Separate = record {
      inside = left-IsInside;
      apart = λ j k ne a e f. (elim (eq_cases i j) [
        | inl j_eq ↦ elim (eq_cases i k) [
          | inl k_eq ↦ ne (j_eq ∙ sym k_eq)
          | inr k_ne ↦ left_apart k k_ne a (pointer-same j j_eq a e) (pointer-other k k_ne a f)
        ]
        | inr j_ne ↦ elim (eq_cases i k) [
          | inl k_eq ↦ left_apart j j_ne a (pointer-same k k_eq a f) (pointer-other j j_ne a e)
          | inr k_ne ↦ sep.apart j k ne a (pointer-other j j_ne a e) (pointer-other k k_ne a f)
        ]
      ]);
    }
