-- ===== src/MultiSig/Memory/Frames.antt =====
-- Each function of Memory.antt leaves what the function of the same name by value leaves, and writes no number but that of
-- its own object.
use schnorr.Common.{
  ℕ, ◌≤◌, ◌<◌, ◌≡◌, ◌≢◌, ◌⊎◌, inl, inr, refl, sym, ap, ◌∙◌, List, Bool, true, false, Option, some,
  Option-cases, arith,
}
use schnorr.Run.{bad_alloc}
use schnorr.Run.Both.{Both, or_throw-Both, deref-Both}
use schnorr.OpenSsl.{OpenSsl}
use schnorr.BignumSerialize
use schnorr.MultiSig.Objects.{
  NumberObject, number_new, number_copy, number_assign, number_deserialize, copied,
}
use schnorr.MultiSig.Memory.{
  Memory, Handle, put, alloc, view, Left, new_at, copied_at, copy_at, assign_at, deserialize_at,
}

module _ (o : OpenSsl) where
  -- What a call that owns the number behind `own` may change: that number, and new ones. The object that it
  -- leaves points at one of these.
  pub record Framed (m : Memory o) (own : Option ℕ) (r : Left o) : Type 0 where
    pub top_le : m.top ≤ r.0.top
    pub kept : (a : ℕ) → a < m.top → own ≢ some a → r.0.cells a ≡ m.cells a
    pub held :
        (r.1.pointer ≡ own) ⊎ ((a : ℕ) × (r.1.pointer ≡ some a) × (m.top ≤ a) × (a < r.0.top))

  -- It leaves the object `x`, and no more than this.
  abbrev pub Simulates : Memory o → Option ℕ → Left o → NumberObject o → Type 0
  Simulates m own r x = (view o r.0 r.1 ≡ x) × Framed m own r

  pub put-same : (m : Memory o) (a : ℕ) (b : o.Bignum) → (put o m a b).cells a ≡ b
  put-same m a b = ground arith

  pub put-other :
      (m : Memory o) (a c : ℕ) (b : o.Bignum) → c ≢ a → (put o m a b).cells c ≡ m.cells c
  put-other m a c b ne = ground (arith, ne)

  -- A call that changes nothing.
  pub still-Framed :
      (m : Memory o) (h h' : Handle) → h'.pointer ≡ h.pointer → Framed m h.pointer (m, h')
  still-Framed m h h' e = record { top_le = omega arith; kept = λ a _ _. refl; held = inl e }

  -- A call that writes the own number.
  pub put-Framed :
      (m : Memory o) (own : Option ℕ) (a : ℕ) (b : o.Bignum) (h : Handle)
      → own ≡ some a
      → h.pointer ≡ own
      → Framed m own (put o m a b, h)
  put-Framed m own a b h e p = record {
    top_le = omega arith;
    kept = λ c _ ne. put-other m a c b (λ q. ne (e ∙ ap some (sym q)));
    held = inl p;
  }

  -- And one that writes it once more.
  pub again-Framed :
      (m n : Memory o) (own : Option ℕ) (a : ℕ) (b : o.Bignum) (h h' : Handle)
      → own ≡ some a
      → h'.pointer ≡ own
      → Framed m own (n, h)
      → Framed m own (put o n a b, h')
  again-Framed m n own a b h h' e p t = record {
    top_le = t.top_le;
    kept = λ c lt ne. put-other n a c b (λ q. ne (e ∙ ap some (sym q))) ∙ t.kept c lt ne;
    held = inl p;
  }

  alloc-old : (m : Memory o) (b : o.Bignum) (c : ℕ) → c < m.top → (alloc o m b).cells c ≡ m.cells c
  alloc-old m b c lt = ground (arith, lt)

  pub alloc-new : (m : Memory o) (b : o.Bignum) → (alloc o m b).cells m.top ≡ b
  alloc-new m b = ground arith

  -- A call that allocates a number, and no other has written.
  pub alloc-Framed :
      (m : Memory o) (own : Option ℕ) (b : o.Bignum) (flag : Bool)
      → Framed m own (alloc o m b, record { pointer = some m.top; initialized = flag })
  alloc-Framed m own b flag = record {
    top_le = omega arith;
    kept = λ c lt _. alloc-old m b c lt;
    held = inr (m.top, refl, omega arith, omega arith);
  }

  pub fresh-Framed :
      (m n : Memory o) (own : Option ℕ) (b : o.Bignum) (h h' : Handle)
      → h'.pointer ≡ some m.top
      → m.top < n.top
      → Framed m own (n, h)
      → Framed m own (put o n m.top b, h')
  fresh-Framed m n own b h h' p lt t = record {
    top_le = t.top_le;
    kept = λ c c_lt ne. put-other n m.top c b (λ q. omega arith) ∙ t.kept c c_lt ne;
    held = inr (m.top, p, omega arith, lt);
  }

  abbrev pub made : o.Bignum → Bool → NumberObject o
  made n flag = record { number = some n; initialized = flag }

  pub new_at-number_new :
      (m : Memory o) (own : Option ℕ) → Both (Simulates m own) (new_at o m) (number_new o)
  unfolding new_at number_new
  new_at-number_new m own =
      or_throw-Both (Simulates m own) o.bn_new bad_alloc _ _
        (λ n. (ap (λ x. made x false) (alloc-new m n), alloc-Framed m own n false))

  pub deserialize_at-number_deserialize :
      (size : ℕ) (m : Memory o) (self : Handle) (src : List ℕ) (offset : ℕ)
      → Simulates m self.pointer
          (deserialize_at o size m self src offset)
          (number_deserialize o size (view o m self) src offset).0
  unfolding deserialize_at number_deserialize
  deserialize_at-number_deserialize size m self src offset =
      elim (Option-cases (BignumSerialize.get_number o src offset size)) [
        | inl e ↦ rw (e, deserialize_at, number_deserialize) (refl, still-Framed m self self refl)
        | inr (n, e) ↦
            rw (e, deserialize_at, number_deserialize)
              (ap (λ x. made x true) (alloc-new m n), alloc-Framed m self.pointer n true)
      ]

  -- What an object shows whose own number has been written.
  pub view-own :
      (m : Memory o) (own : Option ℕ) (a : ℕ) (b : o.Bignum) (flag : Bool)
      → own ≡ some a
      → view o (put o m a b) (record { pointer = own; initialized = flag }) ≡ made b flag
  view-own m own a b flag e = rw e (ap (λ x. made x flag) (put-same m a b))

  assigned-Simulates :
      (m : Memory o) (own : Option ℕ) (a b : ℕ)
      → own ≡ some a
      → Simulates m own (copied_at o m a b) (copied o (m.cells a) (m.cells b))
  assigned-Simulates m own a b e = elim (Option-cases (o.bn_copy (m.cells b))) [
    | inl none_eq ↦
        rw (none_eq, copied_at, copied)
          (refl, record { top_le = omega arith; kept = λ c _ _. refl; held = inl (sym e) })
    | inr (n, some_eq) ↦
        rw (some_eq, copied_at, copied)
          (ap (λ x. made x true) (put-same m a n), put-Framed m own a n _ e (sym e))
  ]

  pub assign_at-number_assign :
      (m : Memory o) (self src : Handle)
      → Both
          (Simulates m self.pointer)
          (assign_at o m self src)
          (number_assign o (view o m self) (view o m src))
  unfolding assign_at number_assign
  assign_at-number_assign m self src =
      deref-Both (Simulates m self.pointer) m.cells self.pointer _ _ (λ a e.
        deref-Both (Simulates m self.pointer) m.cells src.pointer _ _
          (λ b _. assigned-Simulates m self.pointer a b e))

  copied-Simulates :
      (m : Memory o) (own : Option ℕ) (n v : o.Bignum) (a : ℕ)
      → (alloc o m n).cells a ≡ v
      → Simulates m own (copied_at o (alloc o m n) m.top a) (copied o n v)
  copied-Simulates m own n v a e = elim (Option-cases (o.bn_copy v)) [
    | inl none_eq ↦
        rw (ap o.bn_copy e ∙ none_eq, none_eq, copied_at, copied)
          (ap (λ x. made x false) (alloc-new m n), alloc-Framed m own n false)
    | inr (b, some_eq) ↦
        rw (ap o.bn_copy e ∙ some_eq, some_eq, copied_at, copied)
          (
            ap (λ x. made x true) (put-same (alloc o m n) m.top b),
            fresh-Framed m (alloc o m n) own b _ _ refl (omega arith) (alloc-Framed m own n false),
          )
  ]

  -- A handle whose pointer is null or allocated.
  abbrev pub IsInside : Memory o → Handle → Type 0
  IsInside m h = (a : ℕ) → h.pointer ≡ some a → a < m.top

  pub copy_at-number_copy :
      (m : Memory o) (own : Option ℕ) (src : Handle)
      → IsInside m src
      → Both (Simulates m own) (copy_at o m src) (number_copy o (view o m src))
  unfolding copy_at number_copy
  copy_at-number_copy m own src inside =
      or_throw-Both (Simulates m own) o.bn_new bad_alloc _ _ (λ n.
        deref-Both (Simulates m own) m.cells src.pointer _ _
          (λ a e. copied-Simulates m own n (m.cells a) a (alloc-old m n a (inside a e))))

  -- Two objects that do not share a number.
  abbrev pub Apart : Handle → Handle → Type 0
  Apart g h = (a : ℕ) → g.pointer ≡ some a → h.pointer ≢ some a
