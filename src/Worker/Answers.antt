-- ===== src/Worker/Answers.antt =====
-- What a worker has answered, however sending and serving alternate.
use history_chain.Base.{
  ℕ, List, [], ◌∷◌, ◌++◌, true, false, ◌≡◌, ◌∙◌, refl, sym, ap, subst, ◌⊎◌, inl, inr, Result, ok,
  err, panicked, if◌then◌else◌, append_assoc, append-nil,
}
use history_chain.Worker.{
  Request, Channel, Runs, starts, sends, serves, send, serve, serve_next, answer_with, cancel,
  results, owed, Panics,
}

module _ {T : Type 0} (task : T → Result T) where
  Panics-append_left : (xs ys : List (Request T)) → Panics task xs → Panics task (xs ++ ys)
  Panics-append_left [] ys p = absurd p
  Panics-append_left (x ∷ xs) ys (inl p) = inl p
  Panics-append_left (x ∷ xs) ys (inr p) = inr (Panics-append_left xs ys p)

  Panics-append_right : (xs ys : List (Request T)) → Panics task ys → Panics task (xs ++ ys)
  Panics-append_right [] ys p = p
  Panics-append_right (x ∷ xs) ys p = inr (Panics-append_right xs ys p)

  Panics-append :
      (xs ys : List (Request T)) → Panics task (xs ++ ys) → Panics task xs ⊎ Panics task ys
  Panics-append [] ys p = inr p
  Panics-append (x ∷ xs) ys (inl p) = inl (inl p)
  Panics-append (x ∷ xs) ys (inr p) = elim (Panics-append xs ys p) [
    | inl q ↦ inl (inr q)
    | inr q ↦ inr q
  ]

  -- The requests that will be served if some more are sent: none once the worker has ended.
  due : Channel T → List (Request T) → List (Request T)
  due channel more = if channel.is_open then channel.requests ++ more else []

  due-open :
      (channel : Channel T) (more : List (Request T))
      → channel.is_open ≡ true
      → due channel more ≡ channel.requests ++ more
  unfolding due
  due-open channel more on = rw on refl

  -- The answers and what is due come to the results of all requests, whatever else is sent; a worker that
  -- has ended has no requests, and panicked on one that was sent; the panics to come are on sent ones.
  record Accounts (reqs : List (Request T)) (channel : Channel T) : Type 0 where
    conserved :
        (more : List (Request T))
        → channel.answers ++ results task (due channel more) ≡ results task (reqs ++ more)
    alive :
        (channel.is_open ≡ true)
        ⊎ ((channel.is_open ≡ false) × (channel.requests ≡ []) × Panics task reqs)
    sent : Panics task channel.requests → Panics task reqs

  answer_with-due :
      (sender : ℕ) (r : Result T) (channel : Channel T) (more : List (Request T))
      → channel.is_open ≡ true
      → (answer_with sender r channel).answers
          ++ results task (due (answer_with sender r channel) more)
        ≡ channel.answers ++ owed r sender (results task (channel.requests ++ more))
  unfolding answer_with cancel due
  answer_with-due sender (ok value) channel more on = rw on (append_assoc channel.answers _ _)
  answer_with-due sender (err e) channel more on = rw on refl
  answer_with-due sender panicked channel more on = refl

  answer_with-alive :
      (reqs : List (Request T)) (sender : ℕ) (r : Result T) (channel : Channel T)
      → channel.is_open ≡ true
      → (r ≡ panicked → Panics task reqs)
      → let next = answer_with sender r channel in
        ((next.is_open ≡ true) ⊎ ((next.is_open ≡ false) × (next.requests ≡ []) × Panics task reqs))
        × (Panics task next.requests → Panics task channel.requests)
  unfolding answer_with cancel
  answer_with-alive reqs sender (ok value) channel on bad = (inl on, λ p. p)
  answer_with-alive reqs sender (err e) channel on bad = (inl on, λ p. p)
  answer_with-alive reqs sender panicked channel on bad =
      (inr (refl, refl, bad refl), λ p. absurd p)

  serve_next-Accounts :
      (reqs queue : List (Request T)) (channel : Channel T)
      → channel.requests ≡ queue
      → Accounts reqs channel
      → Accounts reqs (serve_next task queue channel)
  unfolding serve_next
  serve_next-Accounts reqs [] channel none_left v = v
  serve_next-Accounts reqs (req ∷ rest) channel next v = elim (v.alive) [
    | inl on ↦
        let taken = record channel { requests = rest } in
        let found = λ (p : Panics task (req ∷ rest)). v.sent (subst (Panics task) (sym next) p) in
        let (alive, sent) =
          answer_with-alive reqs req.sender (task req.content) taken on (λ bad. found (inl bad)) in
        record {
          conserved = λ more.
              answer_with-due req.sender (task req.content) taken more on
              ∙ ap (λ queue. channel.answers ++ results task (queue ++ more)) (sym next)
              ∙ ap (λ queue. channel.answers ++ results task queue) (sym (due-open channel more on))
              ∙ v.conserved more;
          alive = alive;
          sent = λ p. found (inr (sent p));
        }
    | inr (closed, idle, ended) ↦ cc
  ]

  send-Accounts :
      (reqs : List (Request T)) (sender : ℕ) (content : T) (channel : Channel T)
      → channel.is_open ≡ true
      → Accounts reqs channel
      → Accounts
          (reqs ++ (record { sender = sender; content = content } ∷ []))
          ((send sender content channel).1)
  unfolding send
  send-Accounts reqs sender content channel on v =
      let req : Request T = record { sender = sender; content = content } in
      let next = record channel { requests = channel.requests ++ (req ∷ []) } in
      let sent : (send sender content channel).1 ≡ next = rw on refl in
      subst (Accounts (reqs ++ (req ∷ []))) (sym sent) (record {
        conserved = λ more.
            ap (λ queue. channel.answers ++ results task queue)
              (due-open next more on
                ∙ append_assoc channel.requests (req ∷ []) more
                ∙ sym (due-open channel (req ∷ more) on))
            ∙ v.conserved (req ∷ more)
            ∙ ap (results task) (sym (append_assoc reqs (req ∷ []) more));
        alive = inl on;
        sent = λ p. elim (Panics-append channel.requests (req ∷ []) p) [
          | inl waiting ↦ Panics-append_left reqs (req ∷ []) (v.sent waiting)
          | inr new ↦ Panics-append_right reqs (req ∷ []) new
        ];
      })

  Runs-Accounts :
      (reqs : List (Request T)) (channel : Channel T)
      → Runs task reqs channel
      → Accounts reqs channel
  unfolding serve due
  Runs-Accounts [] channel starts = record {
    conserved = λ more. refl;
    alive = inl refl;
    sent = λ p. p;
  }
  Runs-Accounts reqs channel (sends {reqs = before} {channel = old} sender content run on) =
      send-Accounts before sender content old on (Runs-Accounts before old run)
  Runs-Accounts reqs channel (serves {channel = old} run) =
      serve_next-Accounts reqs old.requests old refl (Runs-Accounts reqs old run)

  due-requests :
      (reqs : List (Request T)) (channel : Channel T)
      → Accounts reqs channel
      → due channel [] ≡ channel.requests
  unfolding due
  due-requests reqs channel v = elim (v.alive) [
    | inl on ↦ rw on (append-nil channel.requests)
    | inr (closed, idle, ended) ↦ rw closed (sym idle)
  ]

  -- However sending and serving alternate, the answers given so far, followed by the results of the
  -- requests that wait, are the results of all requests that were sent: in their order, each for
  -- its own requester, none where the task fails, and none from the first request on which the task
  -- panics. Once no request waits, exactly these answers have been given. The channel is open, or
  -- it is closed and empty and the task panics on a request that was sent.
  pub Runs-results :
      (reqs : List (Request T)) (channel : Channel T)
      → Runs task reqs channel
      → (channel.answers ++ results task channel.requests ≡ results task reqs)
        × (channel.requests ≡ [] → channel.answers ≡ results task reqs)
        × ((channel.is_open ≡ true)
            ⊎ ((channel.is_open ≡ false) × (channel.requests ≡ []) × Panics task reqs))
  Runs-results reqs channel run =
      let v = Runs-Accounts reqs channel run in
      let whole =
        ap (λ queue. channel.answers ++ results task queue) (sym (due-requests reqs channel v))
        ∙ v.conserved []
        ∙ ap (results task) (append-nil reqs) in
      let last = λ (idle : channel.requests ≡ []).
        sym (append-nil channel.answers)
        ∙ ap (λ queue. channel.answers ++ results task queue) (sym idle)
        ∙ whole in
      (whole, last, v.alive)
