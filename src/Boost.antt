-- ===== src/Boost.antt =====
-- What the code calls of Boost, as a record of operations: texts are lists of character codes, and an
-- exception of a call is `none`.
use schnorr.Common.{ℕ, ◌*◌, ◌<◌, ◌≡◌, List, Option, some, length, All}

pub record Boost : Type 0 where
  -- `boost::algorithm::hex` and `unhex`
  pub hex : List ℕ → Option (List ℕ)
  pub unhex : List ℕ → Option (List ℕ)
  -- the seed that `boost::hash_combine` leaves
  pub hash_combine : ℕ → List ℕ → ℕ

-- What is documented of the two conversions: two digits for each byte, and the one undoes the other.
pub record HexLaws (b : Boost) : Type 0 where
  pub length-hex : (bs text : List ℕ) → b.hex bs ≡ some text → length text ≡ 2 * length bs
  pub unhex_hex :
      (bs text : List ℕ) → All (λ x. x < 256) bs → b.hex bs ≡ some text → b.unhex text ≡ some bs
