-- ===== src/Node/Info.antt =====
-- What a node knows of another one: `NodeInfo`, `Reputation` and `NodeState` of src/nodes/node.rs.
use history_chain.Base.{ℕ, Bytes, List, Option, none, some, Result, ok, err, HError}

-- std's address of a socket.
pub record SocketAddr : Type 0 where
  pub ip : Bytes
  pub port : ℕ

pub record Reputation : Type 0 where
  pub score : ℕ

abbrev pub reputation_new : Reputation
reputation_new = record { score = 60 }

pub data NodeState : Type 0 where
  active busy sleepping : NodeState

-- `conn_rate`, an `f32`, is only stored: it is its bit pattern.
pub record NodeInfo : Type 0 where
  pub name : Option Bytes
  pub address : Option (List SocketAddr)
  pub caller : Option Bytes
  pub reputation : Option Reputation
  pub last_conn : Option ℕ
  pub last_state : Option NodeState
  pub meeting_count : Option ℕ
  pub conn_rate : Option ℕ
  pub introducer : Option Bytes

abbrev pub node_info_new : NodeInfo
node_info_new = record {
  name = none;
  address = none;
  caller = none;
  reputation = none;
  last_conn = none;
  last_state = none;
  meeting_count = none;
  conn_rate = none;
  introducer = none;
}

-- A field, or the error of its getter.
abbrev field_or : {T : Type 0} → HError → Option T → Result T
field_or e none = err e
field_or e (some v) = ok v

unfoldable pub get_name : NodeInfo → Result Bytes
get_name info = field_or (HError.message "node name is not set") info.name

unfoldable pub get_address : NodeInfo → Result (List SocketAddr)
get_address info = field_or (HError.message "node address is not set") info.address

unfoldable get_caller : NodeInfo → Result Bytes
get_caller info = field_or (HError.message "node caller is not set") info.caller

unfoldable get_reputation : NodeInfo → Result Reputation
get_reputation info = field_or (HError.message "node reputation is not set") info.reputation

unfoldable get_last_conn : NodeInfo → Result ℕ
get_last_conn info = field_or (HError.message "node last_conn is not set") info.last_conn

unfoldable get_last_state : NodeInfo → Result NodeState
get_last_state info = field_or (HError.message "node last_state is not set") info.last_state
