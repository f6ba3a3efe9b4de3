-- ===== src/MultiSig/Memory/Refines.antt =====
-- Programs over the pointers of src/libSchnorr/src/MultiSig_*.cpp do what the programs by value do.
use schnorr.Common.{
  map, All, Option, Bool, ℕ, ◌≡◌, refl, ap, ◌∙◌, subst, List, [], ◌∷◌, inl, inr, none, some, true,
  false, not,
}
use schnorr.Run.{or_return, Run, return_if, ◌>>◌, Outcome, returns, next, finish, call, ◌>>=◌}
use schnorr.Run.Both.{Both, calls-Both, last-Both}
use schnorr.OpenSsl.{OpenSsl}
use schnorr.Keys.{PrivKey}
use schnorr.MultiSig.Objects.{NumberObject, number_from_bytes, number_deserialize}
use schnorr.MultiSig.CommitSecret.{generate}
use schnorr.MultiSig.Response
use schnorr.MultiSig.Aggregate.{aggregate_responses}
use schnorr.MultiSig.Memory.Aggregates.{SimulatesSum, aggregate_responses_at-aggregate_responses}
use schnorr.MultiSig.Memory.{
  aggregate_responses_at, deserialize_at, Handle, Left, view, generate_at, response_set_at,
}
use schnorr.MultiSig.Memory.Frames.{
  IsInside, Simulates, still-Framed, new_at-number_new, copy_at-number_copy,
  assign_at-number_assign, deserialize_at-number_deserialize,
}
use schnorr.MultiSig.Memory.Sets.{hash_set_at-set, challenge_set_at-set, response_set_at-set}
use schnorr.MultiSig.Memory.Draws.{SimulatesDraw, generate_at-generate}
use schnorr.MultiSig.Memory.Separation.{Separate, left-values, left-Separate, eq_cases}
use schnorr.MultiSig.Memory.Actions.{
  Action, State, Values, values_of, left_at, left, ends_at, ends, null, run_at, run, run_all_at,
  run_all,
}

opposite-Both :
    {S T : Type 0} (R : S → T → Type 0) (b : Bool) (r : S) (r' : T) (k : Run S S) (k' : Run T T)
    → R r r'
    → Both R
        (finish (return_if b r >> (return_if (not b) r >> k)))
        (finish (return_if b r' >> (return_if (not b) r' >> k')))
opposite-Both R true r r' k k' h = h
opposite-Both R false r r' k k' h = h

module _ (o : OpenSsl) where
  -- The states that show the same objects, none of which share a number.
  abbrev pub Agrees : State o → Values o → Type 0
  Agrees s v = (values_of o s ≡ v) × Separate o s

  module _ (s : State o) (sep : Separate o s) (i : ℕ) where
    ends-Agrees :
        (own : _) (owns : (a : ℕ) → own ≡ some a → (s.handles i).pointer ≡ some a)
        (out : Outcome (Left o)) (value : Outcome (NumberObject o))
        → Both (Simulates o s.memory own) out value
        → Both Agrees (ends_at o s i out) (ends o (values_of o s) i value)
    ends-Agrees own owns out value both =
        calls-Both Agrees (Simulates o s.memory own) out value _ _ both (λ r x t. (
          left-values o s sep i own r s.world owns t.1 x t.0,
          left-Separate o s sep i own r s.world owns t.1,
        ))

    own-Agrees :
        (out : Outcome (Left o)) (value : Outcome (NumberObject o))
        → Both (Simulates o s.memory (s.handles i).pointer) out value
        → Both Agrees (ends_at o s i out) (ends o (values_of o s) i value)
    own-Agrees = ends-Agrees (s.handles i).pointer (λ a e. e)

    draw-Agrees :
        (fuel : ℕ)
        → Both Agrees
            (finish (call (generate_at o fuel s.memory s.world) >>= λ r. next (left_at o s i r)))
            (finish (call (generate o fuel s.world) >>= λ x. next (left o (values_of o s) i x)))
    draw-Agrees fuel =
        let own = (s.handles i).pointer in
        calls-Both Agrees (SimulatesDraw o s.memory own) _ _ _ _
          (generate_at-generate o s.memory own fuel s.world)
          (λ r x t. (
            left-values o s sep i own r.0 r.1 (λ a e. e) t.0.1 x.0 t.0.0
                ∙ ap (λ w. left o (values_of o s) i (x.0, w)) t.1,
            left-Separate o s sep i own r.0 r.1 (λ a e. e) t.0.1,
          ))

    -- The values of the objects that are added up.
    map-view :
        (js : List ℕ) → map (view o s.memory) (map s.handles js) ≡ map (values_of o s).objects js
    map-view [] = refl
    map-view (j ∷ js) = ap (◌∷◌ (view o s.memory (s.handles j))) (map-view js)

    handles-All-IsInside : (js : List ℕ) → All (IsInside o s.memory) (map s.handles js)
    handles-All-IsInside [] = tt
    handles-All-IsInside (j ∷ js) = (sep.inside j, handles-All-IsInside js)

    found-Agrees :
        (found : Option (Left o)) (value : Option (NumberObject o))
        → SimulatesSum o s.memory found value
        → Both Agrees (finish (or_return found s >>= λ r. next (left_at o s i (r, s.world)))) (
            finish (
              or_return value (values_of o s) >>= λ x.
              next (left o (values_of o s) i (x, s.world))))
    found-Agrees none none t = (refl, sep)
    found-Agrees (some r) (some x) (shown, framed) = (
      left-values o s sep i none r s.world (λ a e. cc) framed x shown,
      left-Separate o s sep i none r s.world (λ a e. cc) framed,
    )
    found-Agrees none (some x) t = absurd t
    found-Agrees (some r) none t = absurd t

    aggregate-Agrees :
        (js : List ℕ)
        → Both Agrees
            (finish (
              call (aggregate_responses_at o s.memory (map s.handles js)) >>= λ found.
              or_return found s >>= λ r. next (left_at o s i (r, s.world))))
            (finish (
              call (aggregate_responses o (map (values_of o s).objects js)) >>= λ found.
              or_return found (values_of o s) >>= λ x.
              next (left o (values_of o s) i (x, s.world))))
    aggregate-Agrees js =
        calls-Both Agrees (SimulatesSum o s.memory) _ _ _ _
          (subst
            (λ xs.
              Both (SimulatesSum o s.memory) (aggregate_responses_at o s.memory (map s.handles js))
                (aggregate_responses o xs))
            (map-view js)
            (aggregate_responses_at-aggregate_responses o s.memory (map s.handles js)
              (handles-All-IsInside js)))
          found-Agrees

    -- A response that is its own secret: an early return, whether it is initialized or not.
    self_response :
        (challenge : Handle) (d : PrivKey o) (h : Handle)
        → Both
            (Simulates o s.memory h.pointer)
            (response_set_at o s.memory h h challenge d)
            (Response.set o (view o s.memory h) (view o s.memory h) (view o s.memory challenge) d)
    unfolding response_set_at Response.set
    self_response challenge d h =
        opposite-Both (Simulates o s.memory h.pointer) h.initialized _ _ _ _
          (refl, still-Framed o s.memory h h refl)

  -- One call.
  run_at-run :
      (x : Action o) (s : State o)
      → Separate o s
      → Both Agrees (run_at o x s) (run o x (values_of o s))
  unfolding run_at run number_from_bytes number_deserialize
  run_at-run (Action.construct i) s sep = own-Agrees s sep i _ _ (new_at-number_new o s.memory _)
  run_at-run (Action.draw_secret i fuel) s sep = draw-Agrees s sep i fuel
  run_at-run (Action.read_new i size src offset) s sep =
      ends-Agrees s sep i none (λ a e. cc)
        (returns (deserialize_at o size s.memory (null o) src offset))
        (returns (number_from_bytes o size src offset))
        (deserialize_at-number_deserialize o size s.memory (null o) src offset)
  run_at-run (Action.copy_of i j) s sep =
      own-Agrees s sep i _ _ (copy_at-number_copy o s.memory _ (s.handles j) (sep.inside j))
  run_at-run (Action.assign i j) s sep =
      own-Agrees s sep i _ _ (assign_at-number_assign o s.memory (s.handles i) (s.handles j))
  run_at-run (Action.deserialize i size src offset) s sep =
      own-Agrees s sep i (returns (deserialize_at o size s.memory (s.handles i) src offset))
        (returns (number_deserialize o size (view o s.memory (s.handles i)) src offset).0)
        (deserialize_at-number_deserialize o size s.memory (s.handles i) src offset)
  run_at-run (Action.set_hash i point) s sep =
      own-Agrees s sep i _ _ (hash_set_at-set o s.memory (s.handles i) point)
  run_at-run (Action.set_challenge i commit key message offset size) s sep =
      own-Agrees s sep i _ _
        (challenge_set_at-set o s.memory (s.handles i) commit key message offset size)
  run_at-run (Action.set_response i secret challenge d) s sep =
      own-Agrees s sep i _ _ (elim (eq_cases i secret) [
        | inl e ↦ rw e (self_response s sep i (s.handles challenge) d (s.handles i))
        | inr ne ↦
            response_set_at-set o s.memory (s.handles i) (s.handles secret) (s.handles challenge) d
              (sep.apart secret i ne)
      ])
  run_at-run (Action.aggregate i js) s sep = aggregate-Agrees s sep i js

  -- A program of calls on objects of which no two share a number ends over the pointers as it ends by value:
  -- with the same exception or fault, or with objects that hold the same numbers and flags, of which
  -- no two share a number again, and the same state of the random number generator. This holds
  -- whatever OpenSSL returns.
  pub run_all_at-run_all :
      (xs : List (Action o)) (s : State o)
      → Separate o s
      → Both Agrees (run_all_at o xs s) (run_all o xs (values_of o s))
  unfolding run_all_at run_all
  run_all_at-run_all [] s sep = (refl, sep)
  run_all_at-run_all (x ∷ xs) s sep =
      calls-Both Agrees Agrees (run_at o x s) (run o x (values_of o s)) _ _ (run_at-run x s sep)
        (λ s' v' t. last-Both Agrees (run_all_at o xs s') (run_all o xs v') (
          subst (λ v. Both Agrees (run_all_at o xs s') (run_all o xs v)) t.0
            (run_all_at-run_all xs s' t.1)))
