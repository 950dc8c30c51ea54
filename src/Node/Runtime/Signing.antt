-- ===== src/Node/Runtime/Signing.antt =====
-- `sign_and_persist` of crates/kcoin-node/src/runtime.rs over the store's register of a slot.
use multi_node_blockchain_kc.Prelude.{
  ℕ, ◌≡◌, refl, sym, ◌∙◌, ap, subst, List, Option, none, some, Result, ok, err, arith,
}
use multi_node_blockchain_kc.Protocol.Primitives.{Primitives}
use multi_node_blockchain_kc.Consensus.Types.{
  SignableMessage, SignedMessage, SafetyState, signature_of,
}
use multi_node_blockchain_kc.Consensus.Signing.{Encoding, SigningBytesError, signable_signing_bytes}
use multi_node_blockchain_kc.Node.Texts.{Text}
use multi_node_blockchain_kc.Node.Storage.{Store, StorageError, PersistedConsensusDecision}
use multi_node_blockchain_kc.Node.Storage.Decisions.{
  persist_consensus_decision, persist_consensus_proposal, append_consensus_event, insert_proposal,
}
use multi_node_blockchain_kc.Node.Storage.Signer.{
  Promise, promise_of, written, written_keeps, serve_all-written, register, persist-register,
  persist-binds, binding,
}
use multi_node_blockchain_kc.Node.Storage.Requests
use multi_node_blockchain_kc.Node.Runtime.{SigningKey, Packages, NodeError}
use multi_node_blockchain_kc.Node.Runtime.Rules.{signer_slot, signed_message}
use multi_node_blockchain_kc.Node.Runtime.State.{NodeActor}
use multi_node_blockchain_kc.Node.Runtime.Driver.{
  sign_and_persist, persist_signature, persist_own_proposal, store_decision, checksum,
}

module _ ⦃p : Primitives⦄ ⦃c : Encoding⦄ ⦃k : Packages⦄ where
  -- What the node's store has promised for a slot.
  abbrev promised_by : Text → NodeActor → Option Promise
  promised_by slot a = promise_of slot a.store

  persist_own_proposal-promise :
      (m : SignedMessage) (slot : Text) (a : NodeActor)
      → promised_by slot (persist_own_proposal m a).1 ≡ promised_by slot a
  unfolding persist_own_proposal persist_consensus_proposal insert_proposal promise_of
  persist_own_proposal-promise (SignedMessage.proposal signed) slot a = ground arith
  persist_own_proposal-promise (SignedMessage.vote v) slot a = refl

  store_decision-promise :
      (d : PersistedConsensusDecision) (m : SignableMessage) (slot : Text) (a : NodeActor)
      → promised_by slot (store_decision d m a).1 ≡ register d slot a.store
  unfolding store_decision promise_of append_consensus_event
  store_decision-promise d m slot a = ground (arith, persist-register d slot a.store)

  store_decision-binds :
      (d : PersistedConsensusDecision) (m : SignableMessage) (a : NodeActor) (x : SignedMessage)
      → (store_decision d m a).0 ≡ ok x
      → (signature : List ℕ) × (x ≡ signed_message m signature)
        × (promised_by d.slot (store_decision d m a).1 ≡ some (binding d signature))
  unfolding store_decision promise_of append_consensus_event
  store_decision-binds d m a x e = go (persist_consensus_decision d a.store) refl
    where
      go :
          (out : Result StorageError (List ℕ) × Store)
          → persist_consensus_decision d a.store ≡ out
          → (signature : List ℕ) × (x ≡ signed_message m signature)
            × (promised_by d.slot (store_decision d m a).1 ≡ some (binding d signature))
      go (ok signature, s) f =
          (signature, ground (arith, e, f), ground (arith, e, f, persist-binds d a.store signature))
      go (err y, s) f = absurd (ground (arith, e, f))

  -- The row that is stored for a message.
  abbrev decision_of :
      SigningKey
      → SignableMessage
      → (sign_bytes safety_bytes encoded : List ℕ) → PersistedConsensusDecision
  decision_of key m sign_bytes safety_bytes encoded = record {
    slot = signer_slot m;
    sign_bytes = sign_bytes;
    signature = k.sign key sign_bytes;
    safety_state = safety_bytes;
    signed_message = encoded;
  }

  module _ (slot : Text) (q : Promise) where
    store_decision_keeps :
        (d : PersistedConsensusDecision) (m : SignableMessage) (a : NodeActor)
        → promised_by slot a ≡ some q
        → promised_by slot (store_decision d m a).1 ≡ some q
    store_decision_keeps d m a h = ground (arith, h, store_decision-promise d m slot a)

    persist_signature_keeps :
        (key : SigningKey) (m : SignableMessage) (sign_bytes safety_bytes : List ℕ) (a : NodeActor)
        → promised_by slot a ≡ some q
        → promised_by slot (persist_signature key m sign_bytes safety_bytes a).1 ≡ some q
    unfolding persist_signature
    persist_signature_keeps key m sign_bytes safety_bytes a h =
        go (k.message_bytes (signed_message m (k.sign key sign_bytes))) refl
      where
        own :
            promised_by slot (persist_own_proposal (signed_message m (k.sign key sign_bytes)) a).1
            ≡ some q
        own = persist_own_proposal-promise (signed_message m (k.sign key sign_bytes)) slot a ∙ h

        go :
            (o : Option (List ℕ))
            → k.message_bytes (signed_message m (k.sign key sign_bytes)) ≡ o
            → promised_by slot (persist_signature key m sign_bytes safety_bytes a).1 ≡ some q
        go none e = ground (arith, e, h)
        go (some encoded) e = ground (
          arith,
          e,
          own,
          store_decision_keeps (decision_of key m sign_bytes safety_bytes encoded) m
              (persist_own_proposal (signed_message m (k.sign key sign_bytes)) a).1 own,
        )

    -- A promise is kept.
    sign_and_persist_keeps :
        (m : SignableMessage) (st : SafetyState) (a : NodeActor)
        → promised_by slot a ≡ some q
        → promised_by slot (sign_and_persist m st a).1 ≡ some q
    unfolding sign_and_persist
    sign_and_persist_keeps m st a h =
        go a.local_validator_key refl (signable_signing_bytes m) refl (k.safety_bytes st) refl
      where
        go :
            (key : Option SigningKey)
            → a.local_validator_key ≡ key
            → (bytes : Result SigningBytesError (List ℕ)) → signable_signing_bytes m ≡ bytes
            → (safety : Option (List ℕ)) → k.safety_bytes st ≡ safety
            → promised_by slot (sign_and_persist m st a).1 ≡ some q
        go (some key) e (ok bytes) f (some safety) g =
            ground (arith, e, f, g, h, persist_signature_keeps key m bytes safety a h)
        go none e bytes f safety g = ground (arith, e, h)
        go (some key) e (err x) f safety g = ground (arith, e, f, h)
        go (some key) e (ok bytes) f none g = ground (arith, e, f, g, h)

  record IsSigned (m : SignableMessage) (x : SignedMessage) (a : NodeActor) : Type 0 where
    sign_bytes : List ℕ
    signature : List ℕ
    safety_bytes : List ℕ
    bytes : signable_signing_bytes m ≡ ok sign_bytes
    message : x ≡ signed_message m signature
    promised :
        promised_by (signer_slot m) a
        ≡ some
            (record { sign_bytes = sign_bytes; signature = signature; safety_state = safety_bytes })

  persist_signature-IsSigned :
      (key : SigningKey) (m : SignableMessage) (sign_bytes safety_bytes : List ℕ) (a : NodeActor)
      (x : SignedMessage)
      → signable_signing_bytes m ≡ ok sign_bytes
      → (persist_signature key m sign_bytes safety_bytes a).0 ≡ ok x
      → IsSigned m x (persist_signature key m sign_bytes safety_bytes a).1
  unfolding persist_signature
  persist_signature-IsSigned key m sign_bytes safety_bytes a x b e =
      go (k.message_bytes (signed_message m (k.sign key sign_bytes))) refl
        (persist_own_proposal (signed_message m (k.sign key sign_bytes)) a) refl
    where
      go :
          (o : Option (List ℕ))
          → k.message_bytes (signed_message m (k.sign key sign_bytes)) ≡ o
          → (out : Result NodeError Unit × NodeActor)
          → persist_own_proposal (signed_message m (k.sign key sign_bytes)) a ≡ out
          → IsSigned m x (persist_signature key m sign_bytes safety_bytes a).1
      go (some encoded) f (ok _, a') g =
          let d = decision_of key m sign_bytes safety_bytes encoded in
          let same : store_decision d m a' ≡ persist_signature key m sign_bytes safety_bytes a =
            ground (arith, f, g) in
          let done : (store_decision d m a').0 ≡ ok x = subst (λ out. out.0 ≡ ok x) (sym same) e in
          let (signature, message, promised) = store_decision-binds d m a' x done in
          record {
            sign_bytes = sign_bytes;
            signature = signature;
            safety_bytes = safety_bytes;
            bytes = b;
            message = message;
            promised =
                subst (λ out. promised_by (signer_slot m) out.1 ≡ some (binding d signature)) same
                  promised;
          }
      go (some encoded) f (err y, a') g = absurd (ground (arith, e, f, g))
      go none f out g = absurd (ground (arith, e, f))

  sign_and_persist-IsSigned :
      (m : SignableMessage) (st : SafetyState) (a : NodeActor) (x : SignedMessage)
      → (sign_and_persist m st a).0 ≡ ok x
      → IsSigned m x (sign_and_persist m st a).1
  unfolding sign_and_persist
  sign_and_persist-IsSigned m st a x h =
      go a.local_validator_key refl (signable_signing_bytes m) refl (k.safety_bytes st) refl
    where
      go :
          (key : Option SigningKey)
          → a.local_validator_key ≡ key
          → (bytes : Result SigningBytesError (List ℕ)) → signable_signing_bytes m ≡ bytes
          → (safety : Option (List ℕ)) → k.safety_bytes st ≡ safety
          → IsSigned m x (sign_and_persist m st a).1
      go (some key) e (ok bytes) f (some safety) g =
          let same : persist_signature key m bytes safety a ≡ sign_and_persist m st a =
            ground (arith, e, f, g, h) in
          subst (λ out. IsSigned m x out.1) same
            (persist_signature-IsSigned key m bytes safety a x f (ap (λ out. out.0) same ∙ h))
      go none e bytes f safety g = absurd (ground (arith, e, h))
      go (some key) e (err y) f safety g = absurd (ground (arith, e, f, h))
      go (some key) e (ok bytes) f none g = absurd (ground (arith, e, f, g, h))

  signature_of-signed_message :
      (m : SignableMessage) (signature : List ℕ)
      → signature_of (signed_message m signature) ≡ signature
  signature_of-signed_message (SignableMessage.proposal q) signature = refl
  signature_of-signed_message (SignableMessage.vote v) signature = refl

  -- A node gives out only one signature for a slot: if it signs one message and, after any calls
  -- of its store, signs another one of the same slot, the two have the same bytes to sign and the
  -- same signature.
  pub sign_and_persist_once :
      (m n : SignableMessage) (st later_st : SafetyState) (a later : NodeActor)
      (x y : SignedMessage) (requests : List Requests.Request)
      → (sign_and_persist m st a).0 ≡ ok x
      → later.store ≡ Requests.serve_all checksum requests (sign_and_persist m st a).1.store
      → (sign_and_persist n later_st later).0 ≡ ok y
      → signer_slot n ≡ signer_slot m
      → (signable_signing_bytes n ≡ signable_signing_bytes m) × (signature_of y ≡ signature_of x)
  sign_and_persist_once m n st later_st a later x y requests first between second same =
      let slot = signer_slot m in
      let one = sign_and_persist-IsSigned m st a x first in
      let two = sign_and_persist-IsSigned n later_st later y second in
      let bound : Promise = record {
        sign_bytes = one.sign_bytes;
        signature = one.signature;
        safety_state = one.safety_bytes;
      } in
      let before : promised_by slot later ≡ some bound =
        ap (promise_of slot) between
        ∙ serve_all-written checksum requests slot (sign_and_persist m st a).1.store
        ∙ ap (written slot requests) one.promised
        ∙ written_keeps requests slot bound in
      let after : promised_by slot (sign_and_persist n later_st later).1 ≡ some bound =
        sign_and_persist_keeps slot bound n later_st later before in
      let again : promised_by slot (sign_and_persist n later_st later).1
          ≡ some (record {
            sign_bytes = two.sign_bytes;
            signature = two.signature;
            safety_state = two.safety_bytes;
          }) =
        subst
          (λ t.
            promised_by t (sign_and_persist n later_st later).1
            ≡ some (record {
              sign_bytes = two.sign_bytes;
              signature = two.signature;
              safety_state = two.safety_bytes;
            }))
          same two.promised in
      let signed_bytes : two.sign_bytes ≡ one.sign_bytes = cc in
      let signatures : two.signature ≡ one.signature = cc in
      (
        two.bytes ∙ ap ok signed_bytes ∙ sym one.bytes,
        ap signature_of two.message
            ∙ signature_of-signed_message n two.signature
            ∙ signatures
            ∙ sym (signature_of-signed_message m one.signature)
            ∙ ap signature_of (sym one.message),
      )
