-- ===== src/Worker/Responds.antt =====
-- What a requester gets from a worker that serves what waits before it.
use history_chain.Base.{
  ℕ, zero, suc, ◌≢◌, inl, inr, append_assoc, List, [], ◌∷◌, ◌++◌, All, ◌≡◌, ◌∙◌, refl, sym, ap,
  true, false, Result, ok, err, panicked, HError, arith, length, ◌==◌, append-nil, length-append,
}
use history_chain.Worker.{
  Request, Channel, cancel, send, serve, serve_next, answer_with, response, results, owed, Panics,
}

-- A number of rounds of the worker's task.
pub rounds : {T : Type 0} → (T → Result T) → ℕ → Channel T → Channel T
rounds task zero channel = channel
rounds task (suc n) channel = rounds task n (serve task channel)

-- None of the requests or answers has the one-shot channel.
abbrev pub IsFresh : {T : Type 0} → ℕ → List (Request T) → Type 0
IsFresh sender reqs = All (λ (r : Request _). (r.sender == sender) ≡ false) reqs

-- What `response` makes of a task's result: a request that fails is dropped.
abbrev pub reply_of : {T : Type 0} → Result T → Result T
reply_of (ok value) = ok value
reply_of (err e) = err (HError.message "Response error:{:?}")
reply_of panicked = err (HError.message "Response error:{:?}")

equals_itself : (n : ℕ) → (n == n) ≡ true
equals_itself n = ground arith

module _ {T : Type 0} (task : T → Result T) where
  -- The task panics on none of the requests.
  abbrev pub IsCalm : List (Request T) → Type 0
  IsCalm reqs = All (λ (r : Request T). task r.content ≢ panicked) reqs

  owed-append :
      (r : Result T) (sender : ℕ) (xs ys : List (Request T))
      → r ≢ panicked
      → owed r sender (xs ++ ys) ≡ owed r sender xs ++ ys
  owed-append (ok value) sender xs ys calm = refl
  owed-append (err e) sender xs ys calm = refl
  owed-append panicked sender xs ys calm = absurd (calm refl)

  results-append :
      (xs ys : List (Request T))
      → IsCalm xs
      → results task (xs ++ ys) ≡ results task xs ++ results task ys
  results-append [] ys calm = refl
  results-append (x ∷ xs) ys (calm, others) =
      ap (owed (task x.content) x.sender) (results-append xs ys others)
      ∙ owed-append (task x.content) x.sender (results task xs) (results task ys) calm

  owed-panicked :
      (r : Result T) (sender : ℕ) (xs : List (Request T)) → r ≡ panicked → owed r sender xs ≡ []
  owed-panicked (ok value) sender xs bad = cc
  owed-panicked (err e) sender xs bad = cc
  owed-panicked panicked sender xs bad = refl

  -- Nothing is owed behind a request on which the task panics.
  results-Panics :
      (xs ys : List (Request T)) → Panics task xs → results task (xs ++ ys) ≡ results task xs
  results-Panics [] ys p = absurd p
  results-Panics (x ∷ xs) ys (inl bad) =
      owed-panicked (task x.content) x.sender (results task (xs ++ ys)) bad
      ∙ sym (owed-panicked (task x.content) x.sender (results task xs) bad)
  results-Panics (x ∷ xs) ys (inr p) = ap (owed (task x.content) x.sender) (results-Panics xs ys p)

  -- A worker without requests does nothing.
  rounds-idle :
      (n : ℕ) (channel : Channel T) → channel.requests ≡ [] → rounds task n channel ≡ channel
  unfolding rounds serve serve_next
  rounds-idle zero channel idle = refl
  rounds-idle (suc n) channel idle =
      ap (λ queue. rounds task n (serve_next task queue channel)) idle ∙ rounds-idle n channel idle

  rounds-answer_with :
      (sender : ℕ) (r : Result T) (reqs : List (Request T)) (channel : Channel T)
      → channel.requests ≡ reqs
      → ((c : Channel T)
          → c.requests ≡ reqs
          → (rounds task (length reqs) c).answers ≡ c.answers ++ results task reqs)
      → (rounds task (length reqs) (answer_with sender r channel)).answers
        ≡ channel.answers ++ owed r sender (results task reqs)
  unfolding answer_with cancel
  rounds-answer_with sender (ok value) reqs channel next rest =
      rest _ next ∙ append_assoc channel.answers _ _
  rounds-answer_with sender (err e) reqs channel next rest = rest channel next
  rounds-answer_with sender panicked reqs channel next rest =
      ap (λ c. c.answers) (rounds-idle (length reqs) (cancel channel) refl)
      ∙ sym (append-nil channel.answers)

  -- As many rounds as requests that wait: what the worker owes for them has been answered, in order.
  rounds-answers :
      (reqs : List (Request T)) (channel : Channel T)
      → channel.requests ≡ reqs
      → (rounds task (length reqs) channel).answers ≡ channel.answers ++ results task reqs
  unfolding rounds serve serve_next
  rounds-answers [] channel next = sym (append-nil channel.answers)
  rounds-answers (req ∷ reqs) channel next =
      ap (λ queue. (rounds task (length reqs) (serve_next task queue channel)).answers) next
      ∙ rounds-answer_with req.sender (task req.content) reqs (record channel { requests = reqs })
          refl (rounds-answers reqs)

  response-append :
      (sender : ℕ) (xs ys : List (Request T))
      → IsFresh sender xs
      → response sender (xs ++ ys) ≡ response sender ys
  unfolding response
  response-append sender [] ys fresh = refl
  response-append sender (x ∷ xs) ys (other, fresh) = rw other (response-append sender xs ys fresh)

  owed-IsFresh :
      (sender other : ℕ) (r : Result T) (rest : List (Request T))
      → (other == sender) ≡ false
      → IsFresh sender rest
      → IsFresh sender (owed r other rest)
  owed-IsFresh sender other (ok value) rest ne fresh = (ne, fresh)
  owed-IsFresh sender other (err e) rest ne fresh = fresh
  owed-IsFresh sender other panicked rest ne fresh = tt

  results-IsFresh :
      (sender : ℕ) (reqs : List (Request T))
      → IsFresh sender reqs
      → IsFresh sender (results task reqs)
  results-IsFresh sender [] fresh = tt
  results-IsFresh sender (req ∷ reqs) (other, fresh) =
      owed-IsFresh sender req.sender (task req.content) (results task reqs) other
        (results-IsFresh sender reqs fresh)

  response-owed : (sender : ℕ) (r : Result T) → response sender (owed r sender []) ≡ reply_of r
  unfolding response
  response-owed sender (ok value) = rw (equals_itself sender) refl
  response-owed sender (err e) = refl
  response-owed sender panicked = refl

  -- The requests that wait before a request of one's own, and the request.
  abbrev with_request : ℕ → T → List (Request T) → List (Request T)
  with_request sender content reqs = reqs ++ (record { sender = sender; content = content } ∷ [])

  -- A request with a one-shot channel of its own, sent to an open channel, once the worker has gone
  -- through what waits before it and the request itself.
  response-results :
      (sender : ℕ) (content : T) (channel : Channel T)
      → channel.is_open ≡ true
      → IsFresh sender channel.answers
      → ((send sender content channel).0 ≡ ok tt)
        × (response sender (
              (rounds task
                (suc (length channel.requests))
                ((send sender content channel).1)).answers)
            ≡ response sender (results task (with_request sender content channel.requests)))
  unfolding send
  response-results sender content channel on fresh =
      let queue = with_request sender content channel.requests in
      let sent = record channel { requests = queue } in
      let count : suc (length channel.requests) ≡ length queue = omega (
        arith,
        length-append channel.requests (record { sender = sender; content = content } ∷ []),
      ) in
      let done : send sender content channel ≡ (ok tt, sent) = rw on refl in
      let n = suc (length channel.requests) in
      (
        ap (λ r. r.0) done,
        ap (λ r. response sender ((rounds task n (r.1)).answers)) done
            ∙ ap (λ n. response sender ((rounds task n sent).answers)) count
            ∙ ap (response sender) (rounds-answers queue sent refl)
            ∙ response-append sender channel.answers _ fresh,
      )

  -- Then `response` gives the task's result on the request, or the error of a dropped request if the
  -- task fails on it, provided that the task panics on none of the requests that wait before it.
  pub response-send :
      (sender : ℕ) (content : T) (channel : Channel T)
      → channel.is_open ≡ true
      → IsCalm channel.requests
      → IsFresh sender channel.requests
      → IsFresh sender channel.answers
      → ((send sender content channel).0 ≡ ok tt)
        × (response sender (
              (rounds task
                (suc (length channel.requests))
                ((send sender content channel).1)).answers)
            ≡ reply_of (task content))
  response-send sender content channel on calm fresh fresh' =
      let (sent, replied) = response-results sender content channel on fresh' in
      (
        sent,
        replied
            ∙ ap (response sender) (results-append channel.requests _ calm)
            ∙ response-append sender (results task channel.requests) _
                (results-IsFresh sender channel.requests fresh)
            ∙ response-owed sender (task content),
      )

  -- If the task panics on a request that waits before it, the request is dropped.
  pub response-send_dropped :
      (sender : ℕ) (content : T) (channel : Channel T)
      → channel.is_open ≡ true
      → Panics task channel.requests
      → IsFresh sender channel.requests
      → IsFresh sender channel.answers
      → ((send sender content channel).0 ≡ ok tt)
        × (response sender (
              (rounds task
                (suc (length channel.requests))
                ((send sender content channel).1)).answers)
            ≡ err (HError.message "Response error:{:?}"))
  unfolding response
  response-send_dropped sender content channel on bad fresh fresh' =
      let (sent, replied) = response-results sender content channel on fresh' in
      (
        sent,
        replied
            ∙ ap (response sender) (
                results-Panics channel.requests _ bad
                ∙ sym (append-nil (results task channel.requests)))
            ∙ response-append sender (results task channel.requests) []
                (results-IsFresh sender channel.requests fresh),
      )
