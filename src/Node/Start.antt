-- ===== src/Node/Start.antt =====
-- What the methods of src/nodes/node.rs that start the four tasks take from the node before they
-- start them, and the channels that they make.
use history_chain.Base.{Bytes, Result, ok, ◌>>=◌, unwrap, get_elem?}
use history_chain.Identity.{SignHandle}
use history_chain.Node.Friends.{Node}
use history_chain.Node.Info.{SocketAddr, get_name, get_address}
use history_chain.Protocol.Message.{Message}
use history_chain.Register.{Register}
use history_chain.Worker.{Channel, create_channel}

module _ {Key Secret : Type 0} where
  -- `spawn_recv_net_task`: the name and the address that its loop receives with.
  unfoldable pub recv_net_start : Node Key Secret → Result (Bytes × SocketAddr)
  recv_net_start node = do
    my_info ← node.nodeinfo
    my_name ← get_name my_info
    bind_addrs ← get_address my_info
    bind_addr ← unwrap (get_elem? bind_addrs 0)
    ok (my_name, bind_addr)

  -- `spawn_encode_and_sign_task`: the handle that its loop signs with, and the channel to it.
  unfoldable pub encode_and_sign_start :
      Node Key Secret → Result (SignHandle Key Secret × Channel (Message × SocketAddr))
  encode_and_sign_start node = do sign_handle ← node.sign_handle; ok (sign_handle, create_channel)

-- `spawn_handler_task`, of what `async_payload_handler` gives: the handlers, and the channel to its
-- loop.
unfoldable pub handler_start : Result Register → Result (Register × Channel (Message × SocketAddr))
handler_start async_payload_handler = do
  register ← async_payload_handler
  ok (register, create_channel)

-- `spawn_udp_send_to_task`
unfoldable pub udp_send_to_start : Result (Channel (Bytes × SocketAddr))
udp_send_to_start = ok create_channel
