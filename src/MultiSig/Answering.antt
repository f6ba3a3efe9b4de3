-- ===== src/MultiSig/Answering.antt =====
-- Responses that answer a challenge, and their sum: what src/libSchnorr/src/MultiSig.cpp adds up.
use mathlib.Core.Path.{ap₂}
use schnorr.Common.{◌≡◌, ◌∙◌, List, [], ◌∷◌, map, All}
use schnorr.OpenSsl.{OpenSsl}
use schnorr.OpenSsl.Laws.{Documented, times}
use schnorr.OpenSsl.Group
use schnorr.OpenSsl.Group.{sum}
use schnorr.Keys.{PubKey}
use schnorr.MultiSig.CommitPoint.{CommitPoint}
use schnorr.MultiSig.Response.{Response}
use schnorr.MultiSig.Sums.{element_of, multiple_of, Reduced}

module _ (o : OpenSsl) (doc : Documented o) (c : o.Bignum) where
  open doc use {group, numbers, curve}

  -- sG + c * key is the commitment, for a number s in [0, …, order - 1].
  abbrev pub AnswersTo : PubKey o → CommitPoint o → Response o → Type 0
  AnswersTo key commit response =
      (group.add (multiple_of o doc response) (times group (numbers.value c) (curve.element key.p))
        ≡ element_of o doc commit)
      × Reduced o doc response

  -- The same of lists, position by position.
  abbrev pub Answering : List (PubKey o) → List (CommitPoint o) → List (Response o) → Type 0
  Answering [] [] [] = Unit
  Answering (p ∷ ps) (q ∷ qs) (r ∷ rs) = AnswersTo p q r × Answering ps qs rs
  Answering _ _ _ = ⊥

  pub Answering-sum :
      (ps : List (PubKey o)) (qs : List (CommitPoint o)) (rs : List (Response o))
      → Answering ps qs rs
      → (group.add
            (sum group (map (multiple_of o doc) rs))
            (times group (numbers.value c) (sum group (map (λ k. curve.element k.p) ps)))
          ≡ sum group (map (element_of o doc) qs))
        × All (Reduced o doc) rs
  Answering-sum [] [] [] t = (rw Group.times-identity (group.identity_add group.identity), tt)
  Answering-sum (p ∷ ps) (q ∷ qs) (r ∷ rs) ((one, reduced), ts) =
      let (rest, all) = Answering-sum ps qs rs ts in
      (
        rw (Group.times-add_elt group (numbers.value c) (curve.element p.p) _)
            (Group.add_swap group _ _ _ _ ∙ ap₂ group.add one rest),
        (reduced, all),
      )
  Answering-sum _ _ _ t = absurd t
