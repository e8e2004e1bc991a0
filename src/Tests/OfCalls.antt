-- ===== src/Tests/OfCalls.antt =====
-- Two calls of `produce`, and calls of `consume` with a closure that fails at times.
use history_chain.Base.{
  ℕ, add_u64, ◌+◌, ◌%◌, ◌==◌, [], ◌∷◌, refl, some, none, ok, err, if◌then◌else◌,
}
use history_chain.Fpsc.Ringbuf.{
  read_finished, poll_write, write_in, ringbuf_new, inner_new, clone_handle, wake_writer, quiet,
}
use history_chain.Fpsc.Consumer.{Closure, closure_error, consumer_poll, use_readable, use_last}
use history_chain.Fpsc.Transfer.{Party, producer, consumer}
use history_chain.Fpsc.Calls.{Ends, with_closure, produce, consume}
use history_chain.Fpsc.Calls.Keeps.{
  History, Accounts, Calls, starts, produces, consumes, Calls-Accounts,
}

-- Every second call succeeds.
abbrev every_second : Closure ℕ
every_second = record {
  call = λ n bytes. (if n % 2 == 0 then err closure_error else ok tt, n + 1, bytes);
}

abbrev one_lost : History
one_lost = record { accepted = 1 ∷ 2 ∷ 3 ∷ []; used = 1 ∷ 2 ∷ []; lost = 3 ∷ [] }

abbrev at_end : Ends Party ℕ
at_end = record {
  inner = record {
    buf = 3 ∷ [];
    capacity = 2;
    state = read_finished;
    counter = 2;
    w_waker = none;
    r_waker = none;
  };
  task = some every_second;
}

three-Calls : Calls every_second one_lost at_end 3
unfolding with_closure produce consume poll_write write_in consumer_poll use_readable use_last
    ringbuf_new clone_handle inner_new quiet wake_writer add_u64
three-Calls = consumes consumer (
    produces producer (3 ∷ [])
      (consumes consumer (consumes consumer (produces producer (1 ∷ 2 ∷ 3 ∷ []) (starts 2 0)))))

Calls-Accounts_example : Accounts one_lost at_end.inner
Calls-Accounts_example = Calls-Accounts every_second (λ n bytes. refl) one_lost at_end 3 three-Calls
