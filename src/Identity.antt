-- ===== src/Identity.antt =====
-- src/nodes/identity.rs: the keys of a node, and the handle on the task that signs with them.
-- ed25519_dalek is the record `Ed25519`, whose laws are `IsSignature`.
use history_chain.Base.{
  Bytes, Bool, true, not, ◌≡◌, ◌≢◌, refl, Option, none, some, Result, ok, err, panicked, HError,
  ◌>>=◌, err_if, length,
}

-- The operations on verifying keys and signing keys. `from_bytes` fails on bytes of no key.
pub record Ed25519 (Key Secret : Type 0) : Type 0 where
  pub verifying_key : Secret → Key
  pub to_bytes : Key → Bytes
  pub from_bytes : Bytes → Option Key
  pub sign_bytes : Secret → Bytes → Bytes
  pub accepts : Key → Bytes → Bytes → Bool

-- A key's bytes are read back, a signature is accepted under the key that belongs to the secret
-- one, and the sizes are those of the source's arrays.
pub record IsSignature {Key Secret : Type 0} (e : Ed25519 Key Secret) : Type 0 where
  pub reads : (k : Key) → e.from_bytes (e.to_bytes k) ≡ some k
  pub signed :
      (s : Secret) (message : Bytes)
      → e.accepts (e.verifying_key s) message (e.sign_bytes s message) ≡ true
  pub length-to_bytes : (k : Key) → length (e.to_bytes k) ≡ 32
  pub length-sign_bytes : (s : Secret) (message : Bytes) → length (e.sign_bytes s message) ≡ 64

pub record Identity (Key Secret : Type 0) : Type 0 where
  pub public_key : Key
  pub secret_key : Option Secret

-- The task that `spawn_new` starts: it owns the identity, until the token cancels it.
pub data Signer (Key Secret : Type 0) : Type 0 where
  running : Identity Key Secret → Signer Key Secret
  cancelled : Signer Key Secret

pub record SignHandle (Key Secret : Type 0) : Type 0 where
  pub public_key_bytes : Bytes
  pub sender : Signer Key Secret

module _ {Key Secret : Type 0} (e : Ed25519 Key Secret) where
  -- `Identity::new`, of the generated signing key.
  unfoldable pub identity_new : Secret → Identity Key Secret
  identity_new secret_key = record {
    public_key = e.verifying_key secret_key;
    secret_key = some secret_key;
  }

  -- `Clone::clone`, which leaves the signing key out.
  pub clone_identity : Identity Key Secret → Identity Key Secret
  clone_identity identity = record identity { secret_key = none }

  unfoldable pub sign_msg : Identity Key Secret → Bytes → Result Bytes
  sign_msg identity message = elim (identity.secret_key) [
    | none ↦ err (HError.identity "No secret key")
    | some secret_key ↦ ok (e.sign_bytes secret_key message)
  ]

  unfoldable pub public_key_to_bytes : Identity Key Secret → Bytes
  public_key_to_bytes identity = e.to_bytes identity.public_key

  key_from_bytes : Bytes → Result Key
  key_from_bytes public_key = elim (e.from_bytes public_key) [
    | none ↦ err (HError.identity "verify signature error: {}")
    | some key ↦ ok key
  ]

  pub verify_signature_bytes : Bytes → Bytes → Bytes → Result (Unit {0})
  unfolding key_from_bytes
  verify_signature_bytes message public_key signature = do
    key ← key_from_bytes public_key
    err_if (not (e.accepts key message signature)) (HError.identity "verify signature error: {}")

  unfoldable pub spawn_new : Identity Key Secret → SignHandle Key Secret
  unfolding public_key_to_bytes
  spawn_new identity = record {
    public_key_bytes = public_key_to_bytes identity;
    sender = running identity;
  }

  -- `SignHandle::verify`
  pub verify : SignHandle Key Secret → Bytes → Bytes → Result (Unit {0})
  unfolding verify_signature_bytes
  verify handle message signature = verify_signature_bytes message handle.public_key_bytes signature

  -- One request in the task's loop: what goes to the requester, or `none` where the loop goes on
  -- and drops the request.
  serve : Identity Key Secret → Bytes → Option Bytes
  unfolding sign_msg
  serve identity bytes_vec = elim (sign_msg identity bytes_vec) [
    | ok sig ↦ some sig
    | err f ↦ none
    | panicked ↦ none
  ]

  -- `send`, with what the task does with the request.
  send_request : SignHandle Key Secret → Bytes → Result (Option Bytes)
  unfolding serve
  send_request handle bytes_vec = elim (handle.sender) [
    | running identity ↦ ok (serve identity bytes_vec)
    | cancelled ↦ err (HError.identity "error in function send, SignHadnle in identity : {}")
  ]

  -- Waiting on the one-shot channel, which fails when the request is dropped.
  receive : Option Bytes → Result Bytes
  receive none = err (HError.identity "error in function sign_message, SignHadnle in identity : {}")
  receive (some sig) = ok sig

  pub sign : SignHandle Key Secret → Bytes → Result Bytes
  unfolding send_request receive
  sign handle bytes = do response ← send_request handle bytes; receive response

  module _ (law : IsSignature e) where
    pub sign-new :
        (s : Secret) (m : Bytes) → sign (spawn_new (identity_new s)) m ≡ ok (e.sign_bytes s m)
    unfolding sign spawn_new identity_new send_request serve sign_msg receive
    sign-new s m = refl

    -- The key's own signature passes, under the key's bytes.
    pub verify_signature_bytes-signed :
        (s : Secret) (m : Bytes)
        → verify_signature_bytes m (e.to_bytes (e.verifying_key s)) (e.sign_bytes s m) ≡ ok tt
    unfolding verify_signature_bytes key_from_bytes
    verify_signature_bytes-signed s m =
        rw (verify_signature_bytes, key_from_bytes, law.reads (e.verifying_key s), law.signed s m)
          refl

    -- A handle spawned of a new identity signs every message, and the handle accepts the signature
    -- for that message; a handle spawned of a clone of an identity, and one whose task is
    -- cancelled, sign nothing.
    pub verify-sign :
        (s : Secret) (i : Identity Key Secret) (h : SignHandle Key Secret) (m : Bytes)
        → h.sender ≡ cancelled
        → ((sig : Bytes) × (sign (spawn_new (identity_new s)) m ≡ ok sig)
            × (verify (spawn_new (identity_new s)) m sig ≡ ok tt))
          × ((sig : Bytes) → sign (spawn_new (clone_identity i)) m ≢ ok sig)
          × ((sig : Bytes) → sign h m ≢ ok sig)
    unfolding spawn_new identity_new verify sign clone_identity send_request serve sign_msg receive
        public_key_to_bytes
    verify-sign s i h m ended = (
      (e.sign_bytes s m, refl, verify_signature_bytes-signed s m),
      (λ sig p. cc),
      λ sig. rw ended (λ p. cc),
    )
