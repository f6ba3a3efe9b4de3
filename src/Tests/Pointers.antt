-- ===== src/Tests/Pointers.antt =====
-- A program of calls over pointers, at the small library.
use schnorr.Common.{◌≡◌, refl, List, [], ◌∷◌, true, some}
use schnorr.Common.Bytes.{be}
use schnorr.Run.{returns, finish, call, next, ◌>>=◌}
use schnorr.Run.Both.{Both}
use schnorr.Sha2
use schnorr.MultiSig.Memory.{
  view, new_at, draw_at, generate_at, copy_at, assign_at, challenge_set_at, response_set_at,
  add_responses_at, aggregate_responses_at,
}
use schnorr.MultiSig.Memory.Actions.{Action, State, values_of, null, run_at, run_all_at, run_all}
use schnorr.MultiSig.Memory.Separation.{Separate}
use schnorr.MultiSig.Memory.Refines.{Agrees, run_all_at-run_all}
use schnorr.Tests.Toy.{toy}
use schnorr.Tests.Examples.{priv_one, key_two, commit_two, message_two}

abbrev program : List (Action toy)
program =
    Action.draw_secret 1 1
    ∷ (Action.construct 0
        ∷ (Action.set_challenge 0 commit_two key_two message_two 0 1
            ∷ (Action.construct 3
                ∷ (Action.set_response 3 1 0 priv_one
                    ∷ (Action.copy_of 2 3
                        ∷ (Action.aggregate 4 (2 ∷ 3 ∷ []) ∷ (Action.assign 1 1 ∷ [])))))))

abbrev start : State toy
start = record {
  memory = record { cells = λ a. 0; top = 0 };
  handles = λ i. null toy;
  world = 1 ∷ [];
}

start-Separate : Separate toy start
start-Separate = record { inside = λ i a e. cc; apart = λ i j ne a e f. cc }

aggregated :
    finish (call (run_all_at toy program start) >>= λ s. next (view toy s.memory (s.handles 4)))
    ≡ returns (record { number = some 1; initialized = true })
unfolding run_all_at run_at new_at draw_at generate_at copy_at assign_at challenge_set_at
    response_set_at add_responses_at aggregate_responses_at Sha2.new Sha2.update Sha2.update_range
    Sha2.finalize be
aggregated = refl

run_all_at-run_all_example :
    Both (Agrees toy) (run_all_at toy program start) (run_all toy program (values_of toy start))
run_all_at-run_all_example = run_all_at-run_all toy program start start-Separate
