-- ===== src/Node/Storage/Signer.antt =====
-- The signer's table of crates/kcoin-node/src/storage.rs as a register for each slot that is written
-- once.
use multi_node_blockchain_kc.Prelude.{
  ℕ, ◌^◌, ◌-◌, ◌≡◌, refl, sym, ◌∙◌, ap, subst, List, [], ◌∷◌, ◌++◌, Bool, false, Option, none, some,
  ok, arith, is_ok, if◌then◌else◌, Option-cases, inl, inr, leb,
}
use multi_node_blockchain_kc.Node.Texts.{Text, first_part, parse_u64}
use multi_node_blockchain_kc.Node.Storage.{
  FinalizedProjection, PersistedConsensusDecision, Store, bind_integer, in_transaction,
}
use multi_node_blockchain_kc.Node.Storage.Finalized.{
  persist_finalized, refresh_block_projection, refresh_row, clear_projections,
}
use multi_node_blockchain_kc.Node.Storage.Decisions.{
  persist_consensus_decision, persist_consensus_proposal, append_consensus_event, find_decision,
  update_message, repeat_decision, decide, insert_proposal, same_bytes,
}
use multi_node_blockchain_kc.Node.Storage.Tables.{persist_finalized_atomic}
use multi_node_blockchain_kc.Node.Storage.Requests.{Request, serve, serve_all}

-- What a slot is bound to.
pub record Promise : Type 0 where
  pub sign_bytes : List ℕ
  pub signature : List ℕ
  pub safety_state : List ℕ

abbrev pub promise : PersistedConsensusDecision → Promise
promise d = record {
  sign_bytes = d.sign_bytes;
  signature = d.signature;
  safety_state = d.safety_state;
}

abbrev promised : Option PersistedConsensusDecision → Option Promise
promised none = none
promised (some d) = some (promise d)

-- The abstract view of a store: what it has promised for a slot.
unfoldable pub promise_of : Text → Store → Option Promise
promise_of slot s = promised (find_decision slot s.signer_state)

-- A slot that begins with a height that the database can hold.
abbrev pub has_height : Text → Bool
has_height slot = elim (parse_u64 (first_part b'/' slot)) [
  | none ↦ false
  | some height ↦ leb height (2 ^ 63 - 1)
]

-- A register keeps the first value that is written to it.
abbrev pub write_once : PersistedConsensusDecision → Option Promise → Option Promise
write_once d none = if has_height d.slot then some (promise d) else none
write_once d (some p) = some p

find_decision-update_message :
    (slot other : Text) (message : List ℕ) (rows : List PersistedConsensusDecision)
    → promised (find_decision slot (update_message other message rows))
      ≡ promised (find_decision slot rows)
unfolding find_decision update_message
find_decision-update_message slot other message [] = refl
find_decision-update_message slot other message (d ∷ rows) =
    ground (arith, find_decision-update_message slot other message rows)

find_decision-append :
    (slot : Text) (rows : List PersistedConsensusDecision) (d : PersistedConsensusDecision)
    → find_decision slot (rows ++ d ∷ []) ≡ elim (find_decision slot rows) [
      | none ↦ if same_bytes d.slot slot then some d else none
      | some old ↦ some old
    ]
unfolding find_decision
find_decision-append slot [] d = refl
find_decision-append slot (e ∷ rows) d = ground (arith, find_decision-append slot rows d)

repeat_decision_keeps :
    (d existing : PersistedConsensusDecision) (slot : Text) (s : Store)
    → promise_of slot (repeat_decision d existing s).1 ≡ promise_of slot s
unfolding promise_of repeat_decision
repeat_decision_keeps d existing slot s =
    ground (arith, find_decision-update_message slot d.slot d.signed_message s.signer_state)

-- The register of the slot takes the decision, and the others stay.
abbrev pub register : PersistedConsensusDecision → Text → Store → Option Promise
register d slot s =
    if same_bytes d.slot slot then write_once d (promise_of slot s) else promise_of slot s

decide-register :
    (d : PersistedConsensusDecision) (height : ℕ) (slot : Text) (s : Store)
    (existing : Option PersistedConsensusDecision)
    → parse_u64 (first_part b'/' d.slot) ≡ some height
    → find_decision d.slot s.signer_state ≡ existing
    → promise_of slot (decide d height existing s).1 ≡ register d slot s
unfolding promise_of decide bind_integer
decide-register d height slot s none h e =
    ground (arith, find_decision-append slot s.signer_state d)
decide-register d height slot s (some existing) h e =
    ground (arith, repeat_decision_keeps d existing slot s)

decide_refused :
    (d : PersistedConsensusDecision) (height : ℕ) (existing : Option PersistedConsensusDecision)
    (s : Store)
    → is_ok (decide d height existing s).0 ≡ false
    → (decide d height existing s).1 ≡ s
unfolding decide repeat_decision
decide_refused d height none s h = ground arith
decide_refused d height (some existing) s h = ground arith

pub persist-register :
    (d : PersistedConsensusDecision) (slot : Text) (s : Store)
    → promise_of slot (persist_consensus_decision d s).1 ≡ register d slot s
unfolding persist_consensus_decision promise_of in_transaction
persist-register d slot s =
    let existing = find_decision d.slot s.signer_state in
    elim (Option-cases (parse_u64 (first_part b'/' d.slot))) [
      | inl malformed ↦ ground (arith, malformed)
      | inr (height, parsed) ↦ ground (
        arith,
        parsed,
        decide-register d height slot s existing parsed refl,
        decide_refused d height existing s,
      )
    ]

persist_finalized-signer_state :
    (b : FinalizedProjection) (s : Store) → (persist_finalized b s).1.signer_state ≡ s.signer_state
persist_finalized-signer_state b s = elim (persist_finalized_atomic b s) [
  | inl (_, stored) ↦ stored.signer
  | inr (_, same) ↦ ap (λ t. t.signer_state) same
]

-- What a request writes to the register of a slot.
abbrev pub write_request : Text → Request → Option Promise → Option Promise
write_request slot (Request.decision d) p = if same_bytes d.slot slot then write_once d p else p
write_request slot (Request.finalized b) p = p
write_request slot (Request.refresh b) p = p
write_request slot Request.clear p = p
write_request slot (Request.proposal q) p = p
write_request slot (Request.event kind bytes) p = p

-- The register of a slot after some requests.
unfoldable pub written : Text → List Request → Option Promise → Option Promise
written slot [] p = p
written slot (r ∷ rest) p = written slot rest (write_request slot r p)

module _ (checksum : List ℕ → Text) where
  serve-write_request :
      (r : Request) (slot : Text) (s : Store)
      → promise_of slot (serve checksum r s) ≡ write_request slot r (promise_of slot s)
  unfolding serve promise_of refresh_block_projection refresh_row clear_projections
      persist_consensus_proposal insert_proposal append_consensus_event
  serve-write_request (Request.finalized b) slot s =
      ap (λ rows. promised (find_decision slot rows)) (persist_finalized-signer_state b s)
  serve-write_request (Request.refresh b) slot s = ground arith
  serve-write_request Request.clear slot s = refl
  serve-write_request (Request.decision d) slot s = persist-register d slot s
  serve-write_request (Request.proposal p) slot s = ground arith
  serve-write_request (Request.event kind bytes) slot s = refl

  -- Whatever calls a store serves, what it has promised for a slot is what a register would hold
  -- that keeps the first decision for the slot, if the slot begins with a height that fits, and
  -- ignores all else.
  pub serve_all-written :
      (requests : List Request) (slot : Text) (s : Store)
      → promise_of slot (serve_all checksum requests s) ≡ written slot requests (promise_of slot s)
  unfolding serve_all written
  serve_all-written [] slot s = refl
  serve_all-written (r ∷ rest) slot s =
      serve_all-written rest slot (serve checksum r s)
      ∙ ap (written slot rest) (serve-write_request r slot s)

write_request_keeps :
    (slot : Text) (r : Request) (p : Promise) → write_request slot r (some p) ≡ some p
write_request_keeps slot (Request.finalized b) p = refl
write_request_keeps slot (Request.refresh b) p = refl
write_request_keeps slot Request.clear p = refl
write_request_keeps slot (Request.decision d) p = ground arith
write_request_keeps slot (Request.proposal q) p = refl
write_request_keeps slot (Request.event kind bytes) p = refl

pub written_keeps :
    (requests : List Request) (slot : Text) (p : Promise) → written slot requests (some p) ≡ some p
unfolding written
written_keeps [] slot p = refl
written_keeps (r ∷ rest) slot p = rw (write_request_keeps slot r p) (written_keeps rest slot p)

abbrev pub binding : PersistedConsensusDecision → List ℕ → Promise
binding d signature = record {
  sign_bytes = d.sign_bytes;
  signature = signature;
  safety_state = d.safety_state;
}

decide-binds :
    (d : PersistedConsensusDecision) (height : ℕ) (existing : Option PersistedConsensusDecision)
    (s : Store) (signature : List ℕ)
    → find_decision d.slot s.signer_state ≡ existing
    → (decide d height existing s).0 ≡ ok signature
    → promise_of d.slot (decide d height existing s).1 ≡ some (binding d signature)
unfolding decide repeat_decision promise_of
decide-binds d height none s signature e accepted =
    ground (arith, find_decision-append d.slot s.signer_state d)
decide-binds d height (some existing) s signature e accepted =
    ground (arith, find_decision-update_message d.slot d.slot d.signed_message s.signer_state)

pub persist-binds :
    (d : PersistedConsensusDecision) (s : Store) (signature : List ℕ)
    → (persist_consensus_decision d s).0 ≡ ok signature
    → promise_of d.slot (persist_consensus_decision d s).1 ≡ some (binding d signature)
unfolding persist_consensus_decision in_transaction
persist-binds d s signature accepted =
    let existing = find_decision d.slot s.signer_state in
    elim (Option-cases (parse_u64 (first_part b'/' d.slot))) [
      | inl malformed ↦ absurd (ground (arith, malformed))
      | inr (height, parsed) ↦
          ground (arith, parsed, decide-binds d height existing s signature refl)
    ]

-- Two decisions of one slot that a store accepts, whatever calls come between, have the same bytes
-- to sign and the same safety state, and both calls return the same signature.
pub persist_signs_once :
    (checksum : List ℕ → Text) (d e : PersistedConsensusDecision) (requests : List Request)
    (s : Store) (first second : List ℕ)
    → (persist_consensus_decision d s).0 ≡ ok first
    → e.slot ≡ d.slot
    → (persist_consensus_decision e
        (serve_all checksum requests (persist_consensus_decision d s).1)).0
      ≡ ok second
    → (e.sign_bytes ≡ d.sign_bytes) × (e.safety_state ≡ d.safety_state) × (second ≡ first)
persist_signs_once checksum d e requests s first second accepted same again =
    let between = serve_all checksum requests (persist_consensus_decision d s).1 in
    let bound : promise_of d.slot between ≡ some (binding d first) =
      serve_all-written checksum requests d.slot (persist_consensus_decision d s).1
      ∙ ap (written d.slot requests) (persist-binds d s first accepted)
      ∙ written_keeps requests d.slot (binding d first) in
    let kept : promise_of e.slot (persist_consensus_decision e between).1 ≡ some (binding d first) =
      persist-register e e.slot between
      ∙ ground (
        arith,
        subst (λ slot. promise_of slot between ≡ some (binding d first)) (sym same) bound,
      ) in
    let equal : some (binding e second) ≡ some (binding d first) =
      sym (persist-binds e between second again) ∙ kept in
    (cc, cc, cc)
