-- ===== src/Lib.antt =====
-- The block chain library of the repository: its blocks, chains, Merkle roots, keeper and executor,
-- the one-producer one-consumer channel of src/fpsc/, the signed messages between nodes, and the files
-- of metadata and chains.
--
-- A block carries the hash of the block before it and its own SHA-256 digest. A chain of data blocks
-- grows by `BlockChain::add` and is checked by `Chain::verify`. The executor digests a whole chain
-- into a digest block, by the Merkle root of its blocks' hashes, puts that block behind the keeper's
-- main chain and the chain among the keeper's side chains. The channel carries bytes between two
-- tasks through one shared buffer. A node signs each message that it sends in a UDP packet, behind a
-- header of a hundred bytes, and takes only messages that are signed by their sender and name it as
-- the receiver; four tasks of it receive, have the registered handler answer, sign and send. A bundle
-- is a file of encoded chains with a description of their time; a file of metadata is searched through
-- a cache.
--
-- The files and the code:
--   Base and its children: `Result` with `?` (`>>=`, `and_then`), `HError` of src/herrors.rs, vectors as
--     lists, bytes as numbers, `u64` and `u32` arithmetic, a `HashMap` as an association list.
--   Block: the trait `Block` of src/block.rs as a record of its required methods, and its default
--     methods `verify`, `time_verify` as functions over the record. Block/Data and Block/Digest:
--     `DataBlock` and `DigestBlock` of src/block.rs. Block/Vote: `VoteBlock` of
--     src/network/protocol.rs. Block/Verify, Block/Binding: proofs.
--   Chain: `ChainLimit`, the trait `Chain` and `BlockChain` of src/chain.rs. `verify_from` is the loop of
--     `verify`, `find_block` that of the lookups, `push` the last step of `add`. Chain/Stores: `Main`
--     and `Sides`. Chain/Ref: `ChainRef`, a vector, an offset and a length for the raw pointer.
--     Chain/Info: `ChainInfoBuilder`. Chain/Linked, Verify, Add, Search, Tamper, Stores/MainAdd,
--     Ref/Segment, Ref/Contain: proofs.
--   Hash: `merkle_root` and `hash_neighbor` of src/hash.rs. Hash/Files: its hashes of slices and files, and
--     src/archive.rs. Hash/Merkle, Hash/Binding: proofs.
--   Keeper: `ChainKeeper` and the trait `Keeper` of src/keeper.rs. Keeper/SideRef: proofs.
--   Executor: `ChainExecutor` of src/executor.rs, at `DataBlock`
--     and `DigestBlock`; `digest_chain`, `store_chain` and `store_side` are the rest of `add_chain` behind
--     each `?`. Executor/AddBlock, AddChain, Reaches, Keeps, Partial,
--     Commits, Binds: proofs.
--   Faker: the generators of chains and executors of src/utils/utils.rs. Faker/Builds, Grows: proofs.
--   Fpsc/Ringbuf: src/fpsc/ringbuf.rs. Fpsc/Producer, Fpsc/Consumer: the two futures of
--     src/fpsc/producer_cosumer.rs. Fpsc/Transfer: `produce_all` and `consume_all` as two tasks that are
--     polled while awake. Fpsc/Streaming: `produce_from_stream` instead of `produce_all`. Fpsc/Calls:
--     `produce` and `consume`.
--     Fpsc/Transfer/Good, Transfer/Delivers, Streaming/Keeps, Calls/Keeps, Handles, ReadBack: proofs.
--   Serializer: the frames of src/serializer.rs, `encode_vec_into` and `decode_from_slice_with_header`; `encode_end`
--     and `decode_body` are the arms of their loops. Serializer/Decode, RoundTrip, Stuck: proofs.
--     Serializer/Writes: the struct `Serializer` and `save_into_asyncwrite`. Serializer/Grows:
--     `encode_into_vec_with_header`, with `grow` for its loop, and its proofs.
--     Serializer/ReadsAll: `decode_from_asyncread`. ReadsAll/Short: proofs.
--   Identity: src/nodes/identity.rs; `serve` is a round of the signing task.
--   Node/Info: `NodeInfo` of src/nodes/node.rs. Node/Pipeline: its four tasks, a function for a round of
--     each and `Runs` for any order of rounds. Node/Pipeline/Answers, Exchange: proofs, of one
--     node and of two. Node/Center: the central
--     node and its builder, of src/nodes/center.rs. Node/Friends: `make_new` of src/nodes/node.rs and the
--     node's other default methods. Node/Friends/Introduced: proofs. Node/Normal:
--     src/nodes/normal.rs. Node/Delivery: `msg_delivery` of src/nodes/node.rs, where `served` stands for the
--     other tasks while it waits. Node/Start: what the methods that start the tasks take from the node.
--     Node/Pipeline/Accepted: proofs.
--   Protocol: `Header` of src/network/protocol.rs. Protocol/Message: `Message`; `encode_behind` and
--     `sign_and_head` are the halves that `encode` and `encode_into_slice` share. Protocol/HeaderRoundTrip,
--     Accepts, Halves, RoundTrip, Streams: proofs.
--   Worker: the requests and workers of src/req_resp.rs, with proofs in Worker/Answers and Worker/Responds. Register:
--     the handlers of src/network/register.rs. Register/Context: `HandlerContext`.
--   Pipe: src/pipe.rs; `Mpsc` are the calls of tokio's channels, and `other` goes to the other end.
--     Pipe/Ordered: proofs.
--   Udp: src/network/udp.rs. Udp/Sends, Checks: proofs.
--   Database/Meta: `MetaData`, its iterator and `find_meta` of src/db.rs, where `gather` is the loop.
--     Database/Files: `FileDataBase`, with
--     proofs in Files/Finds. Database/Bundle: `Bundle`. Database/Meta/Finds, Meta/Saved, Bundle/Describes, Saves, Loads, Overwrites: proofs.
--   Tests: concrete blocks, chains, transfers, messages and files, with the theorems at them.
--
-- Conventions. A method on `&mut self` returns its result and the new state. A panic is the value
-- `panicked`; in a worker's task it ends the loop and drops the requests that wait. `HError` carries the fixed text of the source's message, without the values printed in it. Arithmetic is
-- that of a release build: `+` and `-` wrap at 2 ^ 64, `as u32` at 2 ^ 32; a debug build panics where
-- they wrap. SHA-256 is the parameter `sha256`, and where its length matters, that it is 32 bytes
-- is a hypothesis; the digest of several `update`s is that of the joined bytes. The clock's time and a
-- new UUID are arguments. A lock makes a method one step. `write_all` of tokio writes what is left
-- until nothing is, as its documentation says: `produce_step` is one write of it.
--
-- Fuel: `merkle_loop` has as many rounds as there are hashes; each round halves their number, rounded
-- up, and the loop ends at one. `decode_from` has a round for each byte and one more; each round takes the
-- four bytes of a header at least. `encode_one` has the rounds that its caller gives for each datum:
-- one is enough where the datum fits. bincode is the parameters `encode_into_slice` and `decode`, and what
-- is relied on of it is `IsCodec`.
--
-- `gather` has a round for each byte of the file and one more; each round takes the four bytes of a size.
-- `grow` doubles its vector, so that 26 rounds lead from four bytes beyond its limit of 2 ^ 27.
--
-- Other crates are parameters with laws: bincode is a `Bincode` for each type and `Encodes` of a value,
-- ed25519_dalek is `Ed25519` and `IsSignature`, `read_exact` is a `Reader` and `IsReader`, and a UDP socket is
-- what its calls return. The channels of src/pipe.rs are `Mpsc` and `IsQueue`. Any other channel between tasks is a queue without a bound, and a cancelled task is one
-- that has no further round. What a file holds is its bytes; `write_all` is taken to succeed. An `f32`
-- that is only stored is its bit pattern.
--
-- Not modelled: TCP and routing, which are mostly empty; `save_chain` and `find_chain` of the database,
-- which have no effect; logging; and the traits' methods that have no default.
pub mod Base
pub mod Block
pub mod Chain
pub mod Hash
pub mod Keeper
pub mod Executor
pub mod Faker
pub mod Identity
pub mod Node
pub mod Protocol
pub mod Worker
pub mod Register
pub mod Pipe
pub mod Udp
pub mod Database
pub mod Fpsc
pub mod Serializer
pub mod Tests
