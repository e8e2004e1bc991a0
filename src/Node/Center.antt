-- ===== src/Node/Center.antt =====
-- The central node and its builder, of src/nodes/center.rs. The types of the executor and of the
-- normal nodes are parameters.
use history_chain.Base.{
  ℕ, Bytes, [], Option, none, some, Result, ok, panicked, HError, ◌>>=◌, ◌>>◌, err_if, unwrap, ◌≡◌,
  ◌≢◌, refl, sym, Bool, true, false,
}
use history_chain.Base.ByteDict.{ByteDict}
use history_chain.Node.Info.{NodeState, active, Reputation, reputation_new}

pub record CentralNode (Executor Normal : Type 0) : Type 0 where
  pub name : Bytes
  pub address : Bytes
  pub timestamp : ℕ
  pub friends : ByteDict Normal
  pub executor : Option Executor
  pub reputation : Reputation
  pub state : NodeState

pub record Nodebuilder (Executor Normal : Type 0) : Type 0 where
  pub name : Option Bytes
  pub address : Option Bytes
  pub center_address : Option Bytes
  pub executor : Option Executor
  pub friends : Option (ByteDict Normal)
  pub reputation : Option Reputation

is_none : {A : Type 0} → Option A → Bool
is_none none = true
is_none (some a) = false

check_fields : {A : Type 0} → Option A → HError → Result (Unit {0})
unfolding is_none
check_fields option e = err_if (is_none option) e

friends_or_empty : {Normal : Type 0} → Option (ByteDict Normal) → ByteDict Normal
friends_or_empty none = []
friends_or_empty (some friends) = friends

module _ {Executor Normal : Type 0} where
  -- `CentralNode::new`, at the clock's time.
  central_new : ℕ → Bytes → Bytes → CentralNode Executor Normal
  central_new now name address = record {
    name = name;
    address = address;
    timestamp = now;
    friends = [];
    executor = none;
    reputation = reputation_new;
    state = active;
  }

  abbrev nodebuilder_new : Nodebuilder Executor Normal
  nodebuilder_new = record {
    name = none;
    address = none;
    center_address = none;
    executor = none;
    friends = none;
    reputation = none;
  }

  abbrev with_name : Bytes → Nodebuilder Executor Normal → Nodebuilder Executor Normal
  with_name name builder = record builder { name = some name }

  abbrev with_address : Bytes → Nodebuilder Executor Normal → Nodebuilder Executor Normal
  with_address address builder = record builder { address = some address }

  abbrev with_center_address : Bytes → Nodebuilder Executor Normal → Nodebuilder Executor Normal
  with_center_address address builder = record builder { center_address = some address }

  abbrev with_executor : Executor → Nodebuilder Executor Normal → Nodebuilder Executor Normal
  with_executor executor builder = record builder { executor = some executor }

  abbrev with_reputation : Reputation → Nodebuilder Executor Normal → Nodebuilder Executor Normal
  with_reputation reputation builder = record builder { reputation = some reputation }

  abbrev with_friends :
      Option (ByteDict Normal) → Nodebuilder Executor Normal → Nodebuilder Executor Normal
  with_friends friends builder = record builder { friends = friends }

  build : ℕ → Nodebuilder Executor Normal → Result (CentralNode Executor Normal)
  unfolding check_fields central_new friends_or_empty
  build now builder = do
    check_fields builder.name (HError.nodes "{} is required")
    check_fields builder.address (HError.nodes "{} is required")
    name ← unwrap builder.name
    address ← unwrap builder.address
    ok (record (central_new now name address) {
      executor = builder.executor;
      state = active;
      friends = friends_or_empty builder.friends;
    })

  build-no_panic :
      (now : ℕ) (builder : Nodebuilder Executor Normal) (name address : Option Bytes)
      → name ≡ builder.name
      → address ≡ builder.address
      → build now builder ≢ panicked
  unfolding build check_fields is_none
  build-no_panic now builder none address n a = rw (sym n) (λ p. cc)
  build-no_panic now builder (some x) none n a = rw (sym n, sym a) (λ p. cc)
  build-no_panic now builder (some x) (some y) n a = rw (sym n, sym a) (λ p. cc)

  -- `build` does not panic, and whatever the builder's reputation is, the node's is the default.
  build-reputation :
      (now : ℕ) (builder : Nodebuilder Executor Normal) (reputation : Reputation)
      → (build now builder ≢ panicked)
        × (build now (with_reputation reputation builder) ≡ build now builder)
  unfolding build
  build-reputation now builder reputation =
      (build-no_panic now builder builder.name builder.address refl refl, refl)
