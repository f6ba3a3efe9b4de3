-- ===== src/Sha2/Absorb.antt =====
-- Sha2.h: what a hash object has absorbed, call by call.
use schnorr.Common.{
  ℕ, suc, ne→==, ◌+◌, ◌≤◌, ◌<◌, ◌≡◌, refl, List, [], ◌∷◌, ◌++◌, append-nil, length, slice, arith,
  ◌^◌, add32, replicate,
}
use schnorr.Run.{Outcome, returns}
use schnorr.OpenSsl.{OpenSsl}
use schnorr.OpenSsl.Laws.{ShaLaws}
use schnorr.Sha2.{Sha2, new, update, update_range, finalize}

-- The hash object that the constructor gives.
abbrev pub fresh : (o : OpenSsl) → Sha2 o
fresh o = record { context = o.sha256_init; output = replicate 32 0 }

pub new_lem : (o : OpenSsl) → new o 256 ≡ returns (fresh o)
unfolding new
new_lem o = refl

-- The object after a slice that lies inside the vector.
abbrev pub absorbed : (o : OpenSsl) → Sha2 o → List ℕ → Sha2 o
absorbed o s bs = record s { context = o.sha256_update s.context bs }

pub update_range_inside :
    (o : OpenSsl) (s : Sha2 o) (input : List ℕ) (offset size : ℕ)
    → offset + size ≤ length input
    → offset + size < 2 ^ 32
    → update_range o s input offset size ≡ returns (absorbed o s (slice input offset size))
unfolding update_range
update_range_inside o s input offset size h k = ground arith

-- A sum that wraps passes the check, and memory behind the vector is read.
pub update_range_wraps :
    (o : OpenSsl) (s : Sha2 o) (input : List ℕ) (offset size : ℕ)
    → length input < offset + size
    → add32 offset size ≤ length input
    → update_range o s input offset size ≡ Outcome.faults
unfolding update_range
update_range_wraps o s input offset size h k = ground arith

pub update_range-returns :
    (o : OpenSsl) (s t : Sha2 o) (input : List ℕ) (offset size : ℕ)
    → update_range o s input offset size ≡ returns t
    → (offset + size ≤ length input) × (t ≡ absorbed o s (slice input offset size))
unfolding update_range
update_range-returns o s t input offset size h = ground arith

module _ (o : OpenSsl) (sha : ShaLaws o) where
  abbrev pub Holds : Sha2 o → List ℕ → Type 0
  Holds s xs = sha.Absorbs s.context xs

  pub update-Holds : (s : Sha2 o) (xs bs : List ℕ) → Holds s xs → Holds (update o s bs) (xs ++ bs)
  unfolding update
  update-Holds s xs [] h = rw (append-nil xs) h
  update-Holds s xs (b ∷ bs) h =
      rw (ne→== (suc (length bs)) 0 (omega arith)) (sha.update_lem s.context xs (b ∷ bs) h)

  pub finalize-Holds : (s : Sha2 o) (xs : List ℕ) → Holds s xs → (finalize o s).0 ≡ sha.digest xs
  unfolding finalize
  finalize-Holds s xs h = sha.final_lem s.context xs h
