-- ===== src/Block.antt =====
-- The trait `Block` of src/block.rs: its required methods as a record, its default methods as
-- functions over the record. `Utc::now` is an argument of what creates a block.
pub mod Data
pub mod Digest
pub mod Vote
pub mod Verify
pub mod Binding
use history_chain.Base.{
  ℕ, Bytes, Bool, not, ◌||◌, Result, ok, err_if, HError, ◌>>=◌, ◌>>◌, ltb, bytes_eq, replicate,
  add_u64,
}

-- `ZERO_HASH` and `ZERO_UUID` of src/constants.rs.
abbrev pub zero_hash : Bytes
zero_hash = replicate 32 0

abbrev pub zero_uuid : Bytes
zero_uuid = replicate 16 0

pub record Block (B : Type 0) : Type 0 where
  pub prev_hash : B → Bytes
  pub hash : B → Bytes
  pub index : B → ℕ
  pub digest_id : B → ℕ
  pub timestamp : B → ℕ
  -- The clock's time and the digest id.
  pub genesis : ℕ → ℕ → B
  pub hash_block : B → Bytes

-- `trait Carrier: Block`
pub record Carrier (B : Type 0) : Type 0 where
  pub block : Block B
  pub open block use *
  pub data_hash : B → Bytes
  pub data_uuid : B → Bytes

module _ {B : Type 0} (k : Block B) where
  -- The body that all three kinds of block have.
  unfoldable pub hash_verify : B → Result (Unit {0})
  hash_verify b =
      err_if (not (bytes_eq (k.hash b) (k.hash_block b)))
        (HError.block "block hash is not equal to the hash of its fields")

  unfoldable pub time_verify : B → ℕ → ℕ → Result (Unit {0})
  time_verify b time_start time_gap =
      let timestamp = k.timestamp b in
      err_if (ltb timestamp time_start || ltb (add_u64 time_start time_gap) timestamp)
        (HError.block "timestamp is not correct, block is invalid in this chain")

  unfoldable pub verify : B → Bytes → ℕ → ℕ → Result (Unit {0})
  verify b pre_hash time_start time_gap = do
    hash_verify b
    time_verify b time_start time_gap
    err_if (not (bytes_eq (k.prev_hash b) pre_hash))
        (HError.block "prev_hash is not correct, block is invalid in this chain")
