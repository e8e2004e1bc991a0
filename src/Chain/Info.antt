-- ===== src/Chain/Info.antt =====
-- The builder of chain queries, `ChainInfoBuilder`, of src/chain.rs.
use history_chain.Base.{ℕ, Bytes, Option, none, some, ◌≡◌, refl}

-- `ChainInfo` has the same fields, and a marker of the block type.
pub record ChainInfo : Type 0 where
  pub digest_id : Option ℕ
  pub index : Option (ℕ × ℕ)
  pub timestamp : Option (ℕ × ℕ)
  pub hash : Option Bytes
  pub merkle_root : Option Bytes
  pub data_uuid : Option Bytes
  pub data_hash : Option Bytes

pub record ChainInfoBuilder : Type 0 where
  pub digest_id : Option ℕ
  pub index : Option (ℕ × ℕ)
  pub timestamp : Option (ℕ × ℕ)
  pub hash : Option Bytes
  pub merkle_root : Option Bytes
  pub data_uuid : Option Bytes
  pub data_hash : Option Bytes

abbrev builder_new : ChainInfoBuilder
builder_new = record {
  digest_id = none;
  index = none;
  timestamp = none;
  hash = none;
  merkle_root = none;
  data_uuid = none;
  data_hash = none;
}

build_info : ChainInfoBuilder → ChainInfo
build_info b = record {
  digest_id = b.digest_id;
  index = b.index;
  timestamp = b.timestamp;
  hash = b.hash;
  merkle_root = b.merkle_root;
  data_uuid = b.data_uuid;
  data_hash = b.data_hash;
}

abbrev set_digest_id : ℕ → ChainInfoBuilder → ChainInfoBuilder
set_digest_id digest_id b = record b { digest_id = some digest_id }

abbrev set_index : ℕ → ℕ → ChainInfoBuilder → ChainInfoBuilder
set_index start end b = record b { index = some (start, end) }

abbrev set_timestamp : ℕ → ℕ → ChainInfoBuilder → ChainInfoBuilder
set_timestamp start end b = record b { timestamp = some (start, end) }

abbrev set_hash : Bytes → ChainInfoBuilder → ChainInfoBuilder
set_hash hash b = record b { hash = some hash }

abbrev set_merkle_root : Bytes → ChainInfoBuilder → ChainInfoBuilder
set_merkle_root merkle_root b = record b { merkle_root = some merkle_root }

abbrev set_data_uuid : Bytes → ChainInfoBuilder → ChainInfoBuilder
set_data_uuid data_uuid b = record b { data_uuid = some data_uuid }

abbrev set_data_hash : Bytes → ChainInfoBuilder → ChainInfoBuilder
set_data_hash data_hash b = record b { data_hash = some data_hash }

-- What is set last stands in the query; the other fields stay.
build_info-set_index :
    (start end start' end' : ℕ) (b : ChainInfoBuilder)
    → build_info (set_index start end (set_index start' end' b))
      ≡ record (build_info b) { index = some (start, end) }
unfolding build_info
build_info-set_index start end start' end' b = refl
