-- ===== src/Node/Normal.antt =====
-- The normal node of src/nodes/normal.rs, whose friends are normal nodes. The type of the executor is
-- a parameter.
use history_chain.Base.{ℕ, Bytes, Option, none}
use history_chain.Node.Info.{NodeState, sleepping, Reputation, reputation_new}

mutual
  -- The fields in the source's order: the name, the address, the birthday, the friends, the centre's
  -- address, the executor, the reputation and the state.
  pub data NormalNode (Executor : Type 0) : Type 0 where
    normal_node :
        Bytes
        → Option Bytes
        → ℕ
        → Friends Executor
        → Option Bytes
        → Option Executor
        → Reputation
        → NodeState
        → NormalNode Executor

  -- `HashMap<NodeName, NormalNode<B, D>>`
  pub data Friends (Executor : Type 0) : Type 0 where
    no_friends : Friends Executor
    friend : Bytes → NormalNode Executor → Friends Executor → Friends Executor

-- `NormalNode::new`; the capacity of the table has no other effect.
unfoldable pub normal_new : {Executor : Type 0} → Bytes → ℕ → NormalNode Executor
normal_new name capacity = normal_node name none 0 no_friends none none reputation_new sleepping
