-- ===== src/Block/Vote.antt =====
-- `VoteBlock` and `VoteBlockArgs` of src/network/protocol.rs. The field `result`, an `f32`, is
-- only stored and hashed, so it is its 32-bit pattern, whose big-endian bytes are those of
-- `f32::to_be_bytes`; the pattern of `0.0` is 0.
use history_chain.Base.{ℕ, Bytes, ◌++◌, Bool, true, false, [], ◌∷◌, be_bytes}
use history_chain.Block.{Block, zero_hash}

pub record VoteBlockArgs : Type 0 where
  pub prev_hash : Bytes
  pub expire_time : ℕ
  pub block_hash : Bytes
  pub voter : Bytes
  pub vote : Bool
  pub suspected_block : Bytes
  pub result : ℕ
  pub index : ℕ
  pub digest_id : ℕ

pub record VoteBlock : Type 0 where
  pub hash : Bytes
  pub prev_hash : Bytes
  pub expire_time : ℕ
  pub block_hash : Bytes
  pub voter : Bytes
  pub vote : Bool
  pub timestamp : ℕ
  pub suspected_block : Bytes
  pub result : ℕ
  pub index : ℕ
  pub digest_id : ℕ

-- `vote.to_string().as_bytes()`
abbrev pub vote_bytes : Bool → Bytes
vote_bytes true = b't' ∷ b'r' ∷ b'u' ∷ b'e' ∷ []
vote_bytes false = b'f' ∷ b'a' ∷ b'l' ∷ b's' ∷ b'e' ∷ []

-- The bytes that `hash_block` feeds to the hasher.
unfoldable pub preimage : VoteBlock → Bytes
preimage b =
    b.prev_hash
    ++ (be_bytes 8 b.timestamp
        ++ (be_bytes 8 b.expire_time
            ++ (b.block_hash
                ++ (b.voter
                    ++ (vote_bytes b.vote
                        ++ (b.suspected_block
                            ++ (be_bytes 4 b.result
                                ++ (be_bytes 8 b.index ++ be_bytes 4 b.digest_id))))))))

module _ (sha256 : Bytes → Bytes) where
  unfoldable pub hash_block : VoteBlock → Bytes
  hash_block b = sha256 (preimage b)

  -- `private_new`, which `create` and `new` call with the fields of their argument.
  unfoldable pub create : ℕ → VoteBlockArgs → VoteBlock
  unfolding hash_block
  create now args =
      let block : VoteBlock = record {
        hash = zero_hash;
        prev_hash = args.prev_hash;
        expire_time = args.expire_time;
        block_hash = args.block_hash;
        voter = args.voter;
        vote = args.vote;
        timestamp = now;
        suspected_block = args.suspected_block;
        result = args.result;
        index = args.index;
        digest_id = args.digest_id;
      } in
      record block { hash = hash_block block }

  unfoldable pub genesis : ℕ → ℕ → VoteBlock
  genesis now digest_id = create now (record {
    prev_hash = zero_hash;
    expire_time = 0;
    block_hash = zero_hash;
    voter = zero_hash;
    vote = false;
    suspected_block = zero_hash;
    result = 0;
    index = 0;
    digest_id = digest_id;
  })

  -- `impl Block for VoteBlock`
  abbrev pub vote_block : Block VoteBlock
  vote_block = record {
    prev_hash = λ b. b.prev_hash;
    hash = λ b. b.hash;
    index = λ b. b.index;
    digest_id = λ b. b.digest_id;
    timestamp = λ b. b.timestamp;
    genesis = genesis;
    hash_block = hash_block;
  }
