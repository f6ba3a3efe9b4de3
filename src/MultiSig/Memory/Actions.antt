-- ===== src/MultiSig/Memory/Actions.antt =====
-- Programs that call the functions of src/libSchnorr/src/MultiSig_CommitSecret.cpp, MultiSig_CommitPointHash.cpp,
-- MultiSig_Challenge.cpp and MultiSig_Response.cpp on objects that they name by numbers, with the numbers of the
-- objects behind pointers, and by value.
use schnorr.Common.{map, ℕ, List, [], ◌∷◌, false, none, if◌then◌else◌, ◌==◌}
use schnorr.Run.{or_return, Outcome, returns, next, finish, call, ◌>>=◌}
use schnorr.OpenSsl.{OpenSsl}
use schnorr.Keys.{PrivKey, PubKey}
use schnorr.MultiSig.CommitPoint.{CommitPoint}
use schnorr.MultiSig.Objects.{
  NumberObject, number_new, number_copy, number_assign, number_deserialize, number_from_bytes,
}
use schnorr.MultiSig.CommitSecret.{generate}
use schnorr.MultiSig.CommitPointHash
use schnorr.MultiSig.Challenge
use schnorr.MultiSig.Response
use schnorr.MultiSig.Aggregate.{aggregate_responses}
use schnorr.MultiSig.Memory.{
  Memory, Handle, view, Left, new_at, generate_at, copy_at, assign_at, deserialize_at, hash_set_at,
  challenge_set_at, response_set_at, aggregate_responses_at,
}

-- A call, with the name of the object that it makes or changes first. `size` is that of the class. An
-- aggregate that is a null pointer leaves the object of its name as it was.
pub data Action (o : OpenSsl) : Type 0 where
  construct : (i : ℕ) → Action o
  draw_secret : (i fuel : ℕ) → Action o
  read_new : (i size : ℕ) (src : List ℕ) (offset : ℕ) → Action o
  copy_of : (i j : ℕ) → Action o
  assign : (i j : ℕ) → Action o
  deserialize : (i size : ℕ) (src : List ℕ) (offset : ℕ) → Action o
  set_hash : (i : ℕ) (point : CommitPoint o) → Action o
  set_challenge :
      (i : ℕ) (commit : CommitPoint o) (key : PubKey o) (message : List ℕ) (offset size : ℕ)
      → Action o
  set_response : (i secret challenge : ℕ) (d : PrivKey o) → Action o
  aggregate : (i : ℕ) (js : List ℕ) → Action o

-- The objects by their names, and the state of the random number generator. An object that has not been made
-- has a null pointer.
pub record Values (o : OpenSsl) : Type 0 where
  pub objects : ℕ → NumberObject o
  pub world : o.World

pub record State (o : OpenSsl) : Type 0 where
  pub memory : Memory o
  pub handles : ℕ → Handle
  pub world : o.World

abbrev pub set_to : {A : Type 0} → (ℕ → A) → ℕ → A → ℕ → A
set_to f i x j = if j == i then x else f j

module _ (o : OpenSsl) where
  abbrev pub values_of : State o → Values o
  values_of s = record { objects = λ i. view o s.memory (s.handles i); world = s.world }

  -- The state behind a call that leaves its object with the name `i`.
  abbrev pub left_at : State o → ℕ → Left o × o.World → State o
  left_at s i (r, w) = record { memory = r.0; handles = set_to s.handles i r.1; world = w }

  abbrev pub left : Values o → ℕ → NumberObject o × o.World → Values o
  left v i (x, w) = record { objects = set_to v.objects i x; world = w }

  abbrev pub ends_at : State o → ℕ → Outcome (Left o) → Outcome (State o)
  ends_at s i out = finish do r ← call out; next (left_at s i (r, s.world))

  abbrev pub ends : Values o → ℕ → Outcome (NumberObject o) → Outcome (Values o)
  ends v i out = finish do x ← call out; next (left v i (x, v.world))

  abbrev pub null : Handle
  null = record { pointer = none; initialized = false }

  unfoldable pub run_at : Action o → State o → Outcome (State o)
  run_at (Action.construct i) s = ends_at s i (new_at o s.memory)
  run_at (Action.draw_secret i fuel) s =
      finish do r ← call (generate_at o fuel s.memory s.world); next (left_at s i r)
  run_at (Action.read_new i size src offset) s =
      ends_at s i (returns (deserialize_at o size s.memory null src offset))
  run_at (Action.copy_of i j) s = ends_at s i (copy_at o s.memory (s.handles j))
  run_at (Action.assign i j) s = ends_at s i (assign_at o s.memory (s.handles i) (s.handles j))
  run_at (Action.deserialize i size src offset) s =
      ends_at s i (returns (deserialize_at o size s.memory (s.handles i) src offset))
  run_at (Action.set_hash i point) s = ends_at s i (hash_set_at o s.memory (s.handles i) point)
  run_at (Action.set_challenge i commit key message offset size) s =
      ends_at s i (challenge_set_at o s.memory (s.handles i) commit key message offset size)
  run_at (Action.set_response i secret challenge d) s =
      ends_at s i
        (response_set_at o s.memory (s.handles i) (s.handles secret) (s.handles challenge) d)
  run_at (Action.aggregate i js) s = finish do
    found ← call (aggregate_responses_at o s.memory (map s.handles js))
    r ← or_return found s
    next (left_at s i (r, s.world))

  unfoldable pub run : Action o → Values o → Outcome (Values o)
  run (Action.construct i) v = ends v i (number_new o)
  run (Action.draw_secret i fuel) v =
      finish do x ← call (generate o fuel v.world); next (left v i x)
  run (Action.read_new i size src offset) v =
      ends v i (returns (number_from_bytes o size src offset))
  run (Action.copy_of i j) v = ends v i (number_copy o (v.objects j))
  run (Action.assign i j) v = ends v i (number_assign o (v.objects i) (v.objects j))
  run (Action.deserialize i size src offset) v =
      ends v i (returns (number_deserialize o size (v.objects i) src offset).0)
  run (Action.set_hash i point) v = ends v i (CommitPointHash.set o (v.objects i) point)
  run (Action.set_challenge i commit key message offset size) v =
      ends v i (Challenge.set o (v.objects i) commit key message offset size)
  run (Action.set_response i secret challenge d) v =
      ends v i (Response.set o (v.objects i) (v.objects secret) (v.objects challenge) d)
  run (Action.aggregate i js) v = finish do
    found ← call (aggregate_responses o (map v.objects js))
    x ← or_return found v
    next (left v i (x, v.world))

  -- The calls one behind the other, up to one that does not return.
  unfoldable pub run_all_at : List (Action o) → State o → Outcome (State o)
  run_all_at [] s = returns s
  run_all_at (x ∷ xs) s = finish do s' ← call (run_at x s); call (run_all_at xs s')

  unfoldable pub run_all : List (Action o) → Values o → Outcome (Values o)
  run_all [] v = returns v
  run_all (x ∷ xs) v = finish do v' ← call (run x v); call (run_all xs v')
