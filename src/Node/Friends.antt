-- ===== src/Node/Friends.antt =====
-- What a node of src/nodes/node.rs does with its friends. The node is the fields that the trait
-- `NodeAppend` hands out; its implementations are not in the program. Each call of a method of
-- the UDP connection has the sockets given for it.

pub mod Introduced
use history_chain.Base.{
  ℕ, Bytes, List, [], ◌∷◌, not, ◌&&◌, Bool, true, false, Option, none, some, Result, ok, err,
  panicked, HError, ◌>>=◌, ◌>>◌, err_if, unwrap, length, get_elem?, ◌==◌, bytes_eq,
}
use history_chain.Base.ByteDict.{ByteDict, get}
use history_chain.Identity
use history_chain.Identity.{Ed25519, Identity, SignHandle}
use history_chain.Node.Info.{SocketAddr, NodeInfo, node_info_new, get_name, get_address}
use history_chain.Protocol.{Bincode, HeaderCodec}
use history_chain.Protocol.Message.{
  Message, Payload, chain_request, vote_block, block_recitify, search_friend, empty, introduce,
  introduce_resp, message_new,
}
use history_chain.Udp.{Socket, check_addresses_available, udp_send_to, udp_recv_from}

pub record Node (Key Secret : Type 0) : Type 0 where
  pub nodeinfo : Result NodeInfo
  pub sign_handle : Result (SignHandle Key Secret)
  pub friends : Result (ByteDict NodeInfo)

-- `==` of two addresses.
unfoldable pub addr_eq : SocketAddr → SocketAddr → Bool
addr_eq a b = bytes_eq a.ip b.ip && (a.port == b.port)

unfoldable pub contains : Option NodeInfo → Bool
contains none = false
contains (some info) = true

-- The `if let` on the answer's payload.
unfoldable pub introduced : Payload → Result NodeInfo
introduced (chain_request info) =
    err (HError.message "introduce response for a new node is not valid")
introduced (vote_block chain) =
    err (HError.message "introduce response for a new node is not valid")
introduced (block_recitify block) =
    err (HError.message "introduce response for a new node is not valid")
introduced (search_friend name) =
    err (HError.message "introduce response for a new node is not valid")
introduced empty = err (HError.message "introduce response for a new node is not valid")
introduced introduce = err (HError.message "introduce response for a new node is not valid")
introduced (introduce_resp info) = ok info

-- `get`
get_from : Bytes → Result (ByteDict NodeInfo) → Option NodeInfo
get_from name (ok friends) = get name friends
get_from name (err e) = none
get_from name panicked = none

module _ {Key Secret : Type 0} where
  is_friend : Node Key Secret → Bytes → Result Bool
  unfolding contains
  is_friend node name = do friends ← node.friends; ok (contains (get name friends))

  unfoldable pub get_friend : Node Key Secret → Bytes → Option NodeInfo
  unfolding get_from
  get_friend node name = get_from name node.friends

  -- `make_friend`, which has nothing to do yet behind its check.
  unfoldable pub make_friend : Node Key Secret → Bytes → Result (Unit {0})
  unfolding is_friend
  make_friend node name = is_friend node name >>= λ friend. ok tt

  module _ (e : Ed25519 Key Secret) where
    -- `Node::sign`
    unfoldable node_sign : Node Key Secret → Bytes → Result Bytes
    node_sign node msg = do sign_handle ← node.sign_handle; Identity.sign e sign_handle msg

    -- `init_new`, of the new identity and of what the implementation's `new` made.
    unfoldable pub init_new : Identity Key Secret → Node Key Secret → Node Key Secret
    init_new id node = record node {
      nodeinfo = ok (record node_info_new { name = some (Identity.public_key_to_bytes e id) });
      sign_handle = ok (Identity.spawn_new e id);
    }

    -- `start_sign_handle`
    unfoldable start_sign_handle : Identity Key Secret → Node Key Secret → Node Key Secret
    start_sign_handle id node = record node { sign_handle = ok (Identity.spawn_new e id) }

    module _ (c : HeaderCodec) (m : Bincode Message) where
      unfoldable pub make_new :
          (ℕ → Socket)
          → Socket
          → Socket
          → ℕ
          → ℕ
          → Node Key Secret
          → Bytes
          → SignHandle Key Secret
          → Result NodeInfo
      unfolding contains introduced addr_eq
      make_new checks sends receives now later node introducer sign_handle = do
        this_name_info ← node.nodeinfo
        this_name ← get_name this_name_info
        err_if (not (contains (get_friend node introducer)))
            (HError.message "introducer is not your friend")
        introducer_info ← unwrap (get_friend node introducer)
        dst_addr ← get_address introducer_info
        avaliable_addr ← check_addresses_available e c m checks now dst_addr introducer sign_handle
        err_if (length avaliable_addr == 0) (HError.message "no avaliable address")
        name ← get_name introducer_info
        first ← unwrap (get_elem? avaliable_addr 0)
        sent ←
            udp_send_to e c m sends first (message_new later this_name name introduce) sign_handle
        (msg, src_addr) ← udp_recv_from e c m receives sign_handle.public_key_bytes
        own_addr ← unwrap (get_elem? dst_addr 0)
        err_if (not (addr_eq src_addr own_addr))
            (HError.message "response is not from the introducer")
        introduced msg.payload
