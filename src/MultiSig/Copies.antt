-- ===== src/MultiSig/Copies.antt =====
-- src/libSchnorr/src/MultiSig_Challenge.cpp: copies of challenges.
use schnorr.Common.{◌≡◌, refl, ◌∙◌, true, false, some, Bool-cases, inl, inr}
use schnorr.Run.{returns, bad_alloc, or_throw-step, deref-step}
use schnorr.OpenSsl.{OpenSsl}
use schnorr.OpenSsl.Laws.{Documented, NeverFails}
use schnorr.Keys.RoundTrip.{equal_lem}
use schnorr.MultiSig.Objects.{number_copy, number_eq, copied}
use schnorr.MultiSig.Challenge
use schnorr.MultiSig.Challenge.{Challenge}

module _ (o : OpenSsl) (doc : Documented o) (runs : NeverFails o doc.group doc.numbers) where
  open doc use {numbers}

  -- The copy of a challenge whose pointer is not null, and whose number is not negative, is initialized
  -- whether the challenge is or not, where no call of OpenSSL fails; so `operator==` finds the copy equal
  -- exactly where the challenge is initialized.
  pub challenge_copy_lem :
      (src : Challenge o) (n : o.Bignum)
      → src.number ≡ some n
      → o.bn_is_negative n ≡ false
      → (copy : Challenge o) × (Challenge.copy o src ≡ returns copy)
        × (copy.initialized ≡ true)
        × (Challenge.eq o copy src ≡ returns src.initialized)
  unfolding Challenge.copy Challenge.eq number_copy number_eq
  challenge_copy_lem src n held nonneg =
      let (new, made) = runs.bn_new in
      let (m, m_eq) = runs.bn_copy n in
      let (value, sign) = numbers.copy_lem n m m_eq in
      let equal = equal_lem o doc runs m n (sign ∙ nonneg) nonneg value in
      (
        record { number = some m; initialized = true },
        or_throw-step o.bn_new bad_alloc _ made (deref-step src.number _ held (rw (m_eq, copied))),
        refl,
        elim (Bool-cases src.initialized) [ inl e ↦ rw (e, held, equal) | inr e ↦ rw e ],
      )
