-- ===== src/Tests/OfContext.antt =====
-- A context with one worker, and a payload that is sent through it.
use history_chain.Base.{[], ◌∷◌, ok, true}
use history_chain.Protocol.Message.{introduce}
use history_chain.Register.{Register, register_new, reg, of_empty}
use history_chain.Register.Context.{HandlerContext, Channels}

-- A context with one worker, which still serves another request.
abbrev context : HandlerContext
context = record { request_wokers = (of_empty, 1) ∷ [] }

abbrev channels : Channels
channels worker = record {
  is_open = true;
  requests = record { sender = 4; content = introduce } ∷ [];
  answers = [];
}

abbrev handlers : Register
handlers = reg register_new of_empty (λ payload. ok introduce)
