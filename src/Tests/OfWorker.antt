-- ===== src/Tests/OfWorker.antt =====
-- A worker that answers one request, fails on the next, and panics on the one behind it.
use history_chain.Base.{
  ℕ, List, zero, suc, [], ◌∷◌, ◌++◌, ◌≡◌, ◌⊎◌, refl, Result, ok, err, panicked, HError, true, false,
}
use history_chain.Worker.{
  Channel, Request, Runs, starts, sends, serves, create_channel, send, serve, results, Panics,
  serve_next, answer_with, cancel,
}
use history_chain.Worker.Answers.{Runs-results}

-- A task that fails on zero and panics on one.
abbrev before_it : ℕ → Result ℕ
before_it zero = err (HError.message "zero")
before_it (suc zero) = panicked
before_it (suc (suc n)) = ok n

abbrev request : ℕ → ℕ → Request ℕ
request sender content = record { sender = sender; content = content }

abbrev requests : List (Request ℕ)
requests =
    ((([] ++ (request 1 5 ∷ [])) ++ (request 2 0 ∷ [])) ++ (request 3 1 ∷ [])) ++ (request 4 6 ∷ [])

abbrev sent : Channel ℕ
sent = (send 4 6 ((send 3 1 ((send 2 0 ((send 1 5 create_channel).1)).1)).1)).1

abbrev ended : Channel ℕ
ended = serve before_it (serve before_it (serve before_it sent))

ended_run : Runs before_it requests ended
unfolding send
ended_run =
    serves
      (serves (serves (sends 4 6 (sends 3 1 (sends 2 0 (sends 1 5 starts refl) refl) refl) refl)))

Runs-results_example :
    (ended.answers ++ results before_it ended.requests ≡ results before_it requests)
    × (ended.requests ≡ [] → ended.answers ≡ results before_it requests)
    × ((ended.is_open ≡ true)
        ⊎ ((ended.is_open ≡ false) × (ended.requests ≡ []) × Panics before_it requests))
Runs-results_example = Runs-results before_it requests ended ended_run

-- The request behind the panic is not answered.
one_answer : ended.answers ≡ request 1 3 ∷ []
unfolding send serve serve_next answer_with cancel
one_answer = refl
