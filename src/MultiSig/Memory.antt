-- ===== src/MultiSig/Memory.antt =====
-- src/libSchnorr/src/MultiSig_CommitSecret.cpp, MultiSig_CommitPointHash.cpp, MultiSig_Challenge.cpp and
-- MultiSig_Response.cpp once more, with the numbers behind pointers: BN_copy, BN_nnmod and the other calls
-- write through the pointer of an object, as the code has it, and read the other objects where they stand. The
-- functions of Objects.antt, CommitSecret.antt, Challenge.antt, … are the same by value.
pub mod Actions
pub mod Frames
pub mod Sets
pub mod Draws
pub mod Aggregates
pub mod Separation
pub mod Refines
use schnorr.Common.{
  ◌+◌, ◌^◌, ℕ, zero, suc, List, [], ◌∷◌, Bool, true, false, Option, none, some, not, length, ltb,
  ◌==◌, add32, if◌then◌else◌,
}
use schnorr.Run.{
  Outcome, Run, returns, out_of_fuel, bad_alloc, next, finish, or_throw, or_return,
  called_or_return, return_if, wraps_if, call, deref, ◌>>=◌, ◌>>◌,
}
use schnorr.Run.Both.{mapped}
use schnorr.OpenSsl.{OpenSsl, nnmod}
use schnorr.BignumSerialize
use schnorr.Keys.{PrivKey, PubKey}
use schnorr.Sha2
use schnorr.Sizes.{
  second_domain_separated_hash_function_byte, third_domain_separated_hash_function_byte,
}
use schnorr.Verify.{octets_or_return}
use schnorr.MultiSig.CommitPoint.{CommitPoint}
use schnorr.MultiSig.Objects.{NumberObject}

-- The numbers that were allocated, at the addresses below `top`. An address is never used again.
pub record Memory (o : OpenSsl) : Type 0 where
  pub cells : ℕ → o.Bignum
  pub top : ℕ

-- An object: `m_s`, `m_h`, `m_c` or `m_r`, and `m_initialized`. A null pointer is `none`.
pub record Handle : Type 0 where
  pub pointer : Option ℕ
  pub initialized : Bool

module _ (o : OpenSsl) where
  -- The number that a call writes through a pointer.
  abbrev pub put : Memory o → ℕ → o.Bignum → Memory o
  put m a b = record m { cells = λ c. if c == a then b else m.cells c }

  -- The number that a call allocates, at the address `m.top`.
  abbrev pub alloc : Memory o → o.Bignum → Memory o
  alloc m b = record { cells = λ c. if c == m.top then b else m.cells c; top = suc m.top }

  -- What is behind a handle.
  abbrev pub view : Memory o → Handle → NumberObject o
  view m h = record { number = mapped m.cells h.pointer; initialized = h.initialized }

  -- The memory and the object that a call leaves.
  abbrev pub Left : Type 0
  Left = Memory o × Handle

  -- The default constructors of the challenge, the response and the point's hash.
  unfoldable pub new_at : Memory o → Outcome Left
  new_at m = finish do
    n ← or_throw o.bn_new bad_alloc
    next (alloc m n, record { pointer = some m.top; initialized = false })

  -- The loop of `CommitSecret()`, which draws into the number at `a`.
  unfoldable pub draw_at : ℕ → Memory o → ℕ → o.World → Outcome (Left × o.World)
  draw_at zero m a w = out_of_fuel
  draw_at (suc fuel) m a w =
      let (drawn, w') = o.bn_rand_range o.curve_order w in
      elim drawn [
        | none ↦ returns ((m, record { pointer = some a; initialized = false }), w')
        | some n ↦ elim (o.bn_is_zero n) [
          | true ↦ draw_at fuel (put m a n) a w'
          | false ↦ returns ((put m a n, record { pointer = some a; initialized = true }), w')
        ]
      ]

  unfoldable pub generate_at : ℕ → Memory o → o.World → Outcome (Left × o.World)
  generate_at fuel m w =
      finish do n ← or_throw o.bn_new bad_alloc; call (draw_at fuel (alloc m n) m.top w)

  -- `BN_copy` from one address to another, and the flag that says whether it did.
  abbrev pub copied_at : Memory o → ℕ → ℕ → Left
  copied_at m target src = elim (o.bn_copy (m.cells src)) [
    | none ↦ (m, record { pointer = some target; initialized = false })
    | some n ↦ (put m target n, record { pointer = some target; initialized = true })
  ]

  -- The copy constructors.
  unfoldable pub copy_at : Memory o → Handle → Outcome Left
  copy_at m src = finish do
    n ← or_throw o.bn_new bad_alloc
    a ← deref src.pointer
    next (copied_at (alloc m n) m.top a)

  -- The assignments, `operator=`, also of an object to itself.
  unfoldable pub assign_at : Memory o → Handle → Handle → Outcome Left
  assign_at m self src =
      finish do a ← deref self.pointer; b ← deref src.pointer; next (copied_at m a b)

  -- `Deserialize`, at the size of the class: the pointer moves to the number that is read.
  unfoldable pub deserialize_at : ℕ → Memory o → Handle → List ℕ → ℕ → Left
  deserialize_at size m self src offset = elim (BignumSerialize.get_number o src offset size) [
    | none ↦ (m, self)
    | some n ↦ (alloc m n, record { pointer = some m.top; initialized = true })
  ]

  -- `CommitPointHash::Set`
  unfoldable pub hash_set_at : Memory o → Handle → CommitPoint o → Outcome Left
  hash_set_at m self point = finish do
    return_if (not point.initialized) (m, self)
    let cleared : Handle = record self { initialized = false }
    sha2_new ← call (Sha2.new o Sha2.hash_variant_256)
    let sha2 = Sha2.update o sha2_new (second_domain_separated_hash_function_byte ∷ [])
    p ← deref point.point
    buf ← octets_or_return o p (m, cleared)
    digest_number ←
        or_return (o.bn_bin2bn (Sha2.finalize o (Sha2.update o sha2 buf)).0) (m, cleared)
    a ← deref self.pointer
    let unreduced = put m a digest_number
    h ← called_or_return (nnmod o (unreduced.cells a) o.curve_order none) (unreduced, cleared)
    next (put unreduced a h, record self { initialized = true })

  -- `Challenge::Set`
  unfoldable pub challenge_set_at :
      Memory o → Handle → CommitPoint o → PubKey o → List ℕ → ℕ → ℕ → Outcome Left
  challenge_set_at m self aggregated_commit aggregated_pubkey message offset size = finish do
    return_if (not aggregated_commit.initialized) (m, self)
    return_if (length message == 0) (m, self)
    return_if (ltb (length message) (add32 offset size)) (m, self)
    sha2_new ← call (Sha2.new o Sha2.hash_variant_256)
    let sha2 = Sha2.update o sha2_new (third_domain_separated_hash_function_byte ∷ [])
    let cleared : Handle = record self { initialized = false }
    p ← deref aggregated_commit.point
    commitment ← octets_or_return o p (m, cleared)
    key ← octets_or_return o aggregated_pubkey.p (m, cleared)
    hashed ← call (
        Sha2.update_range o (Sha2.update o (Sha2.update o sha2 commitment) key) message offset size)
    digest_number ← or_return (o.bn_bin2bn (Sha2.finalize o hashed).0) (m, cleared)
    a ← deref self.pointer
    let unreduced = put m a digest_number
    c ← called_or_return (nnmod o (unreduced.cells a) o.curve_order none) (unreduced, cleared)
    next (put unreduced a c, record self { initialized = true })

  -- `Response::Set`: the product is written over the response's number before the secret is read.
  unfoldable pub response_set_at : Memory o → Handle → Handle → Handle → PrivKey o → Outcome Left
  response_set_at m self secret challenge privkey = finish do
    return_if self.initialized (m, self)
    return_if (not secret.initialized) (m, self)
    return_if (not challenge.initialized) (m, self)
    let cleared : Handle = record self { initialized = false }
    ctx ← or_throw o.bn_ctx_new bad_alloc
    a ← deref self.pointer
    b ← deref challenge.pointer
    product ← or_return (o.bn_mod_mul (m.cells b) privkey.d o.curve_order) (m, cleared)
    let multiplied = put m a product
    c ← deref secret.pointer
    s ←
        or_return (o.bn_mod_sub (multiplied.cells c) (multiplied.cells a) o.curve_order)
          (multiplied, cleared)
    next (put multiplied a s, record self { initialized = true })

  -- The loop of `AggregateResponses`, which adds to the number of `acc`; its counter is an `unsigned int`.
  unfoldable pub add_responses_at :
      ℕ → Memory o → Handle → List Handle → Run (Option Left) (Memory o)
  add_responses_at i m acc [] = next m
  add_responses_at i m acc (r ∷ rs) = do
    a ← deref acc.pointer
    b ← deref r.pointer
    sum ← or_return (o.bn_mod_add (m.cells a) (m.cells b) o.curve_order) none
    wraps_if (i + 1 == 2 ^ 32)
    add_responses_at (i + 1) (put m a sum) acc rs

  unfoldable pub aggregate_responses_at : Memory o → List Handle → Outcome (Option Left)
  unfolding add_responses_at
  aggregate_responses_at m [] = returns none
  aggregate_responses_at m (r ∷ rs) = finish do
    aggregated ← call (copy_at m r)
    ctx ← or_throw o.bn_ctx_new bad_alloc
    total ← add_responses_at 1 aggregated.0 aggregated.1 rs
    next (some (total, aggregated.1))
