-- ===== src/Node/Friends/Introduced.antt =====
-- Whose word `make_new` of src/nodes/node.rs takes for a new node.
use history_chain.Base.{
  ℕ, Bytes, List, Bool, true, false, not, ◌&&◌, ◌≡◌, ◌∙◌, refl, sym, ap, Option, none, some, ok,
  err_if, length, unwrap, >>=-eq-ok, arith, get_elem?, ◌==◌, bytes_eq, bytes_eq→eq,
}
use history_chain.Identity.{Ed25519, SignHandle}
use history_chain.Node.Friends.{Node, contains, addr_eq, introduced, get_friend, make_new}
use history_chain.Node.Info.{SocketAddr, NodeInfo, get_name, get_address}
use history_chain.Protocol.{Bincode, HeaderCodec}
use history_chain.Protocol.Accepts.{IsFor, err_if-eq-ok}
use history_chain.Protocol.Message.{
  Message, Payload, chain_request, vote_block, block_recitify, search_friend, empty, introduce,
  introduce_resp, message_new,
}
use history_chain.Udp.{Socket, received, check_addresses_available, udp_send_to, udp_recv_from}
use history_chain.Udp.Checks.{udp_recv_from-IsFor}

unwrap-eq-ok : {T : Type 0} (o : Option T) (v : T) → unwrap o ≡ ok v → o ≡ some v
unwrap-eq-ok none v h = cc
unwrap-eq-ok (some w) v h = cc

introduced-eq-ok :
    (p : Payload) (info : NodeInfo) → introduced p ≡ ok info → p ≡ introduce_resp info
unfolding introduced
introduced-eq-ok (chain_request i) info h = cc
introduced-eq-ok (vote_block chain) info h = cc
introduced-eq-ok (block_recitify block) info h = cc
introduced-eq-ok (search_friend name) info h = cc
introduced-eq-ok empty info h = cc
introduced-eq-ok introduce info h = cc
introduced-eq-ok (introduce_resp i) info h = cc

both : (a b : Bool) → not (a && b) ≡ false → (a ≡ true) × (b ≡ true)
both true true h = (refl, refl)
both true false h = cc
both false b h = cc

same_port : (a b : ℕ) → (a == b) ≡ true → a ≡ b
same_port a b h = ground arith

addr_eq→eq : (a b : SocketAddr) → not (addr_eq a b) ≡ false → a ≡ b
unfolding addr_eq
addr_eq→eq a b h =
    let (ip, port) = both (bytes_eq a.ip b.ip) (a.port == b.port) h in
    let ip_eq = bytes_eq→eq _ _ ip in
    let port_eq = same_port _ _ port in λ i. record { ip = ip_eq i; port = port_eq i }

module _ {Key Secret : Type 0} (e : Ed25519 Key Secret) (c : HeaderCodec)
    (m : Bincode Message) where
  -- If `make_new` returns a node, then the introducer is a friend whose first address the bytes that
  -- the node received came from, and `decode_from_slice` accepts those as a signed message to the
  -- holder of the handle, which introduces the returned node.
  pub make_new-introduced :
      (checks : ℕ → Socket) (sends receives : Socket) (now later : ℕ) (node : Node Key Secret)
      (introducer : Bytes) (sign_handle : SignHandle Key Secret) (info : NodeInfo)
      → make_new e c m checks sends receives now later node introducer sign_handle ≡ ok info
      → (friend : NodeInfo) × (addrs : List SocketAddr) × (bytes : Bytes) × (src : SocketAddr)
        × (msg : Message) × (get_friend node introducer ≡ some friend)
        × (get_address friend ≡ ok addrs)
        × (get_elem? addrs 0 ≡ some src)
        × (receives.recv_from ≡ received bytes src)
        × IsFor e c m sign_handle.public_key_bytes bytes msg
        × (msg.payload ≡ introduce_resp info)
  unfolding make_new
  make_new-introduced checks sends receives now later node introducer sign_handle info done =
      let (me, _, h1) = >>=-eq-ok node.nodeinfo _ done in
      let (me_name, _, h2) = >>=-eq-ok (get_name me) _ h1 in
      let (u, _, h3) = >>=-eq-ok (err_if (not (contains (get_friend node introducer))) _) _ h2 in
      let (friend, known, h4) = >>=-eq-ok (unwrap (get_friend node introducer)) _ h3 in
      let (addrs, addressed, h5) = >>=-eq-ok (get_address friend) _ h4 in
      let (found, _, h6) =
        >>=-eq-ok (check_addresses_available e c m checks now addrs introducer sign_handle) _ h5 in
      let (u', _, h7) = >>=-eq-ok (err_if (length found == 0) _) _ h6 in
      let (name, _, h8) = >>=-eq-ok (get_name friend) _ h7 in
      let (first, _, h9) = >>=-eq-ok (unwrap (get_elem? found 0)) _ h8 in
      let (n, _, h10) =
        >>=-eq-ok
          (udp_send_to e c m sends first (message_new later me_name name introduce) sign_handle) _
          h9 in
      let ((msg, src), got, h11) =
        >>=-eq-ok (udp_recv_from e c m receives sign_handle.public_key_bytes) _ h10 in
      let (own, place, h12) = >>=-eq-ok (unwrap (get_elem? addrs 0)) _ h11 in
      let (u'', same, last) = >>=-eq-ok (err_if (not (addr_eq src own)) _) _ h12 in
      let (bytes, came, good) = udp_recv_from-IsFor e c m receives _ msg src got in
      let it : src ≡ own = addr_eq→eq src own (err_if-eq-ok _ _ u'' same) in
      (
        friend,
        addrs,
        bytes,
        src,
        msg,
        unwrap-eq-ok _ _ known,
        addressed,
        unwrap-eq-ok _ _ place ∙ ap some (sym it),
        came,
        good,
        introduced-eq-ok _ _ last,
      )
