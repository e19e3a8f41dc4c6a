-- ===== src/Speculative/Tests.antt =====
-- Runs of both streams over a model that counts, and the theorems at those inputs.
use common_network.Prelude.{
  ℕ, ◌+◌, ◌%◌, ◌<◌, ◌≡◌, refl, List, [], ◌∷◌, length, Bool, true, false, ◌==◌, number_eq, arith,
}
use common_network.Speculative.Session.{replies, forward, cut_back, truncate, err, malformed_answer}
use common_network.Speculative.Verify.{verify, final_answer, verified_prefix, matching, same}
use common_network.Speculative.Plain.{finished, trip, plain_loop, generate_stream}
use common_network.Speculative.Loop
use common_network.Speculative.Loop.{chain_chunk}
use common_network.Speculative.Chain.{IsChainDrafter, IsChainPrompt}
use common_network.Speculative.Follows.{greedy_tokens}
use common_network.Speculative.Agree

-- The token after a context is its length, by 7.
abbrev counting : List ℕ → ℕ
counting c = length c % 7

abbrev at_six : ℕ → Bool
at_six t = t == 6

-- Right about the first token of each draft, wrong about the second; it counts its calls.
abbrev half_right : ℕ → List ℕ → ℕ → List ℕ × ℕ
half_right calls c n = ((length c % 7) ∷ 9 ∷ (length c % 7) ∷ [], calls + 1)

program : Unit {0}
unfolding replies forward cut_back verify final_answer verified_prefix matching same trip plain_loop
    generate_stream Loop.emit Loop.count_round Loop.adapt Loop.yield_drafts Loop.settle truncate
    Loop.check_drafts Loop.round Loop.spec_loop Loop.verified_trip Loop.check_chain
    Loop.are_chain_ids Loop.chain_chunk Loop.start Loop.speculative_stream
program = tt

plain_run :
    generate_stream counting at_six (0 ∷ 0 ∷ []) 9
    ≡ record { tokens = 2 ∷ 3 ∷ 4 ∷ 5 ∷ []; end = finished }
unfolding program
plain_run = refl

speculative_run :
    Loop.speculative_stream counting at_six half_right true false 8388608 7 true 3 3 0 (0 ∷ 0 ∷ [])
    ≡ (
      record { tokens = 2 ∷ 3 ∷ 4 ∷ []; end = finished },
      record { rounds = 1; drafted = 2; accepted = 1; emitted = 3; k_used = 2 ∷ [] },
    )
unfolding program
speculative_run = refl

-- The client refuses an answer that accepts another token than it drafted.
refused_answer :
    verified_prefix (record { ids = 4 ∷ 5 ∷ []; accepted = 1; next = 5 }) (3 ∷ []) 7
    ≡ err malformed_answer
unfolding program
refused_answer = refl

generate_stream-greedy_example :
    generate_stream counting at_six (0 ∷ 0 ∷ []) 9
    ≡ record { tokens = greedy_tokens counting at_six 9 (0 ∷ 0 ∷ []); end = finished }
generate_stream-greedy_example =
    Agree.generate_stream-greedy counting at_six half_right true false 8388608 7 true 3 9 0 (0 ∷ [])

counting_in_vocabulary : (c : List ℕ) → counting c < 7
counting_in_vocabulary c = omega arith

three_fit : IsChainDrafter half_right 8388608 7 3
unfolding chain_chunk
three_fit = record {
  fits = omega arith;
  vocabulary = omega arith;
  proposed = λ d c n. (omega arith, (omega arith, (omega arith, tt)));
}

two_fit : IsChainPrompt (0 ∷ 0 ∷ [])
two_fit = record { short = omega arith; small = (omega arith, (omega arith, tt)) }

speculative_stream-generate_stream_example :
    ((Loop.speculative_stream counting at_six half_right true false 8388608 7 true 3 9 0
        (0 ∷ 0 ∷ [])).0
      ≡ generate_stream counting at_six (0 ∷ 0 ∷ []) 9)
    × ((generate_stream counting at_six (0 ∷ 0 ∷ []) 9).end ≡ finished)
speculative_stream-generate_stream_example =
    Agree.speculative_stream-generate_stream counting at_six half_right true false 8388608 7 true 3
      9 0 (0 ∷ []) 0 counting_in_vocabulary (omega arith) refl (λ e. three_fit) (λ e. two_fit)
