-- ===== src/Worker.antt =====
-- src/req_resp.rs: requests to a worker over a channel, each with a one-shot channel for the answer,
-- which a number names here. The channel's bound is left out: a sender that waits has not sent yet.
pub mod Answers
pub mod Responds
use history_chain.Base.{
  ℕ, List, [], ◌∷◌, ◌++◌, Bool, true, false, ◌≡◌, ◌⊎◌, Option, none, some, Result, ok, err,
  panicked, HError, if◌then◌else◌, ◌==◌,
}

pub record Request (T : Type 0) : Type 0 where
  pub sender : ℕ
  pub content : T

-- The channel between `RequestWorker` and `WorkReceiver`, open while the task runs, and the answers
-- that one-shot channels have taken.
pub record Channel (T : Type 0) : Type 0 where
  pub is_open : Bool
  pub requests : List (Request T)
  pub answers : List (Request T)

abbrev pub create_channel : {T : Type 0} → Channel T
create_channel = record { is_open = true; requests = []; answers = [] }

module _ {T : Type 0} where
  -- `Request::send`, which fails once the receiver is gone.
  unfoldable pub send : ℕ → T → Channel T → Result (Unit {0}) × Channel T
  send sender content channel =
      if channel.is_open
      then (
        ok tt,
        record channel {
          requests = channel.requests ++ (record { sender = sender; content = content } ∷ []);
        },
      )
      else (err (HError.message "Request send to worker error:{:?}"), channel)

  -- `recv_data` on what `recv_work` returns.
  unfoldable recv_data : Option (Request T) → Result T
  recv_data none = err (HError.message "request handler recviece a invalid request")
  recv_data (some req) = ok req.content

  -- `Response::response`: the answer, or the error of a one-shot channel that was dropped.
  pub response : ℕ → List (Request T) → Result T
  response sender [] = err (HError.message "Response error:{:?}")
  response sender (answer ∷ answers) =
      if answer.sender == sender then ok answer.content else response sender answers

  -- A task that is cancelled or panics drops its receiver, and the requests in it.
  unfoldable pub cancel : Channel T → Channel T
  cancel channel = record channel { is_open = false; requests = [] }

  -- The task's result goes to the requester; a request that failed is dropped; a panic ends the loop.
  unfoldable pub answer_with : ℕ → Result T → Channel T → Channel T
  unfolding cancel
  answer_with sender (ok value) channel = record channel {
    answers = channel.answers ++ (record { sender = sender; content = value } ∷ []);
  }
  answer_with sender (err e) channel = channel
  answer_with sender panicked channel = cancel channel

  unfoldable pub serve_next : (T → Result T) → List (Request T) → Channel T → Channel T
  unfolding answer_with
  serve_next task [] channel = channel
  serve_next task (req ∷ rest) channel =
      answer_with req.sender (task req.content) (record channel { requests = rest })

  -- A round of the loop of `Worker::run`.
  unfoldable pub serve : (T → Result T) → Channel T → Channel T
  unfolding serve_next
  serve task channel = serve_next task channel.requests channel

  -- What a worker owes for requests, in their order: the results that are no error, up to the first
  -- request on which the task panics.
  abbrev pub owed : Result T → ℕ → List (Request T) → List (Request T)
  owed (ok value) sender rest = record { sender = sender; content = value } ∷ rest
  owed (err e) sender rest = rest
  owed panicked sender rest = []

  abbrev pub results : (T → Result T) → List (Request T) → List (Request T)
  results task [] = []
  results task (req ∷ reqs) = owed (task req.content) req.sender (results task reqs)

  -- The task panics on one of the requests.
  abbrev pub Panics : (T → Result T) → List (Request T) → Type 0
  Panics task [] = ⊥
  Panics task (req ∷ reqs) = (task req.content ≡ panicked) ⊎ Panics task reqs

  -- Sending and serving in any order, with the requests that were sent.
  pub data Runs (task : T → Result T) : List (Request T) → Channel T → Type 0 where
    starts : Runs task [] create_channel
    sends :
        {reqs : List (Request T)} {channel : Channel T} (sender : ℕ) (content : T)
        → Runs task reqs channel
        → channel.is_open ≡ true
        → Runs task
            (reqs ++ (record { sender = sender; content = content } ∷ []))
            ((send sender content channel).1)
    serves :
        {reqs : List (Request T)} {channel : Channel T}
        → Runs task reqs channel
        → Runs task reqs (serve task channel)
