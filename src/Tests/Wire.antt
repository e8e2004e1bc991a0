-- ===== src/Tests/Wire.antt =====
-- A toy of the signatures and codecs: a key is a number, a signature is the signer's number and
-- zeros, and a message's payload is told from its timestamp.
use history_chain.Base.{
  ℕ, Bytes, [], ◌∷◌, ◌++◌, true, ◌≡◌, refl, Option, none, some, arith, length, take, drop, slice,
  replicate, ◌==◌, be_bytes, from_be, length-be_bytes, from_be-be_bytes, ok, err, HError, ltb,
  lt→ltb, le→ltb, if◌then◌else◌,
}
use history_chain.Serializer.{written, unexpected_end}
use history_chain.Identity.{Ed25519, IsSignature}
use history_chain.Protocol.{Bincode, Encodes, HeaderCodec, Reader}
use history_chain.Protocol.HeaderRoundTrip.{Encodings, IsHeaderCodec}
use history_chain.Protocol.Message.{Message, Payload, empty, introduce, introduce_resp}
use history_chain.Node.Info.{node_info_new}
use history_chain.Protocol.Streams.{IsReader}

abbrev pub first_or_zero : Bytes → ℕ
first_or_zero [] = 0
first_or_zero (b ∷ bs) = b

abbrev key_of : Bytes → Option ℕ
key_of [] = none
key_of (k ∷ bs) = some k

abbrev pub keys : Ed25519 ℕ ℕ
keys = record {
  verifying_key = λ s. s;
  to_bytes = λ k. k ∷ replicate 31 0;
  from_bytes = key_of;
  sign_bytes = λ s m. s ∷ replicate 63 0;
  accepts = λ k m sig. first_or_zero sig == k;
}

equals_itself : (s : ℕ) → (s == s) ≡ true
equals_itself s = ground arith

pub keys-IsSignature : IsSignature keys
keys-IsSignature = record {
  reads = λ k. refl;
  signed = λ s m. equals_itself s;
  length-to_bytes = λ k. refl;
  length-sign_bytes = λ s m. refl;
}

abbrev pub header_codec : HeaderCodec
header_codec = record {
  length_codec = record {
    encode_into_slice = λ v part. (written 4, be_bytes 4 v);
    decode_from_slice = λ b. some (from_be 0 b);
  };
  signature_codec = record {
    encode_into_slice = λ v part. (written 64, v);
    decode_from_slice = λ b. some b;
  };
  public_key_codec = record {
    encode_into_slice = λ v part. (written 32, v);
    decode_from_slice = λ b. some b;
  };
}

abbrev encodings : Encodings
encodings = record {
  enc_length = λ v. be_bytes 4 v;
  enc_signature = λ v. v;
  enc_public_key = λ v. v;
}

pub header_codec-IsHeaderCodec : IsHeaderCodec header_codec encodings
header_codec-IsHeaderCodec = record {
  of_length = record {
    fills = λ v part small four. refl;
    reads = λ v small i. some (from_be-be_bytes 4 v small i);
    wide = λ v small. length-be_bytes 4 v;
  };
  of_signature = record {
    fills = λ v part good wide. refl;
    reads = λ v good. refl;
    wide = λ v good. good;
  };
  of_public_key = record {
    fills = λ v part good wide. refl;
    reads = λ v good. refl;
    wide = λ v good. good;
  };
}

abbrev pub body_of : Message → Bytes
body_of msg = msg.sender ++ (msg.receiver ++ (msg.timestamp ∷ []))

abbrev payload_at : ℕ → Payload
payload_at timestamp =
    if timestamp == 6
    then introduce_resp node_info_new
    else if timestamp == 8
    then introduce
    else empty

abbrev pub message_codec : Bincode Message
message_codec = record {
  encode_into_slice = λ msg part.
      if ltb (length part) (length (body_of msg))
      then (unexpected_end, part)
      else (written (length (body_of msg)), body_of msg ++ drop (length (body_of msg)) part);
  decode_from_slice = λ b. some (record {
    sender = take 32 b;
    timestamp = first_or_zero (drop 64 b);
    payload = payload_at (first_or_zero (drop 64 b));
    receiver = slice 32 64 b;
  });
}

-- A message of the node with the key 7 to the node with the key 9.
abbrev pub hello : Message
hello = record {
  sender = 7 ∷ replicate 31 0;
  timestamp = 5;
  payload = empty;
  receiver = 9 ∷ replicate 31 0;
}

pub hello-Encodes : Encodes message_codec hello (body_of hello)
hello-Encodes = record { fits = λ part room. rw (le→ltb (length part) 65 room) refl; reads = refl }

abbrev pub read_bytes : Reader Bytes
read_bytes n s = if ltb (length s) n then err HError.io else ok (take n s, drop n s)

pub read_bytes-IsReader : IsReader read_bytes (λ s. s)
read_bytes-IsReader = record {
  ends = λ n s few. rw (lt→ltb (length s) n few) refl;
  reads = λ n s enough. (drop n s, rw (le→ltb (length s) n enough) refl, refl);
}
