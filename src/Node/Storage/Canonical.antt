-- ===== src/Node/Storage/Canonical.antt =====
-- The canonical rows of crates/kcoin-node/src/storage.rs, the bytes of a finalized block and of its
-- certificate, and the stored proposals, over any calls that write.
use multi_node_blockchain_kc.Prelude.{
  ℕ, ◌≡◌, refl, sym, ◌∙◌, subst, List, [], ◌∷◌, false, Option, none, some, arith, Result,
  Option-cases, inl, inr, ℕ_discrete, if_cases,
}
use multi_node_blockchain_kc.Prelude.Maps.{Map, lookup, insert, lookup-insert, ℕ_key}
use multi_node_blockchain_kc.Prelude.Exec.{continue_cases}
use multi_node_blockchain_kc.Node.Texts.{Text, first_part, parse_u64}
use multi_node_blockchain_kc.Node.Storage.{
  StorageError, FinalizedProjection, BlockRow, PersistedConsensusDecision,
  PersistedConsensusProposal, Store, bind_integer, in_transaction, proposal_key,
}
use multi_node_blockchain_kc.Node.Storage.Finalized.{
  persist_finalized, refresh_block_projection, refresh_row, clear_projections, has_hash, row_of,
  refreshed, has_bytes,
}
use multi_node_blockchain_kc.Node.Storage.Decisions.{
  persist_consensus_decision, persist_consensus_proposal, append_consensus_event, repeat_decision,
  decide, insert_proposal, find_decision,
}
use multi_node_blockchain_kc.Node.Storage.Tables.{
  persist_finalized_atomic, with_block, IsConsistent,
}
use multi_node_blockchain_kc.Node.Storage.Requests.{Request, serve, serve_all}

-- Each row stands under its own height, and no two have one hash.
pub record IsSound (blocks : Map ℕ BlockRow) : Type 0 where
  pub heights : (h : ℕ) (row : BlockRow) → lookup h blocks ≡ some row → row.height ≡ h
  pub hashes :
      (h k : ℕ) (row other : BlockRow)
      → lookup h blocks ≡ some row
      → lookup k blocks ≡ some other
      → row.block_hash ≡ other.block_hash
      → h ≡ k

-- The blocks of a later store: the bytes at each height stay.
pub record IsLater (blocks blocks' : Map ℕ BlockRow) : Type 0 where
  pub later :
      (h : ℕ) (row : BlockRow)
      → lookup h blocks ≡ some row
      → (row' : BlockRow) × (lookup h blocks' ≡ some row')
        × (row'.block_bytes ≡ row.block_bytes)
        × (row'.certificate_bytes ≡ row.certificate_bytes)
  pub sound : IsSound blocks → IsSound blocks'

pub IsLater-refl : (blocks : Map ℕ BlockRow) → IsLater blocks blocks
IsLater-refl blocks = record { later = λ h row e. (row, e, refl, refl); sound = λ s. s }

pub IsLater-trans : (a b c : Map ℕ BlockRow) → IsLater a b → IsLater b c → IsLater a c
IsLater-trans a b c f g = record {
  later = λ h row e.
      let (row', e', x, y) = f.later h row e in
      let (row'', e'', x', y') = g.later h row' e' in (row'', e'', x' ∙ x, y' ∙ y);
  sound = λ s. g.sound (f.sound s);
}

has_hash_lem :
    (hash : Text) (height k : ℕ) (blocks : Map ℕ BlockRow) (row : BlockRow)
    → has_hash hash height blocks ≡ false
    → lookup k blocks ≡ some row
    → row.block_hash ≡ hash
    → k ≡ height
unfolding has_hash
has_hash_lem hash height k [] row new found same = cc
has_hash_lem hash height k ((j, other) ∷ blocks) row new found same =
    ground (arith, has_hash_lem hash height k blocks row)

-- A row of a hash that no other height has is put at its height.
insert-IsSound :
    (height : ℕ) (row : BlockRow) (blocks : Map ℕ BlockRow)
    → row.height ≡ height
    → has_hash row.block_hash height blocks ≡ false
    → IsSound blocks
    → IsSound (insert height row blocks)
insert-IsSound height row blocks at new s = record {
  heights = λ h r e. ground (arith, at, s.heights h r, lookup-insert h height row blocks);
  hashes = λ h k r q e f same. ground (
    arith,
    s.hashes h k r q,
    lookup-insert h height row blocks,
    lookup-insert k height row blocks,
    has_hash_lem row.block_hash height h blocks r new,
    has_hash_lem row.block_hash height k blocks q new,
  );
}

module _ (b : FinalizedProjection) (blocks : Map ℕ BlockRow) where
  with_block-IsLater :
      (existing : Option BlockRow)
      → lookup b.height blocks ≡ existing
      → IsConsistent b existing blocks
      → IsLater blocks (with_block b existing blocks)
  with_block-IsLater none absent new = record {
    later = λ h row e.
        (row, ground (arith, absent, lookup-insert h b.height (row_of b) blocks), refl, refl);
    sound = insert-IsSound b.height (row_of b) blocks refl new;
  }
  with_block-IsLater (some row) present same = IsLater-refl blocks

  insert-refreshed-IsLater :
      (row : BlockRow)
      → lookup b.height blocks ≡ some row
      → has_hash b.block_hash b.height blocks ≡ false
      → IsLater blocks (insert b.height (refreshed b row) blocks)
  insert-refreshed-IsLater row present new = record {
    later = λ h r e. elim (ℕ_discrete h b.height) [
      | yes here ↦ (
        refreshed b row,
        ground (arith, here, lookup-insert h b.height (refreshed b row) blocks),
        ground (arith, here, present, e),
        ground (arith, here, present, e),
      )
      | no other ↦
          (r, ground (arith, lookup-insert h b.height (refreshed b row) blocks), refl, refl)
    ];
    sound = λ s.
        insert-IsSound b.height (refreshed b row) blocks (s.heights b.height row present) new s;
  }

pub persist_finalized-IsLater :
    (b : FinalizedProjection) (s : Store) → IsLater s.blocks (persist_finalized b s).1.blocks
persist_finalized-IsLater b s = elim (persist_finalized_atomic b s) [
  | inl (_, stored) ↦
      subst (IsLater s.blocks) (sym stored.blocks)
        (with_block-IsLater b s.blocks (lookup b.height s.blocks) refl stored.consistent)
  | inr (_, same) ↦ subst (λ t. IsLater s.blocks t.blocks) (sym same) (IsLater-refl s.blocks)
]

-- The call's end has later blocks than its beginning.
abbrev Leads : Store → Result StorageError Unit × Store → Type 0
Leads s out = IsLater s.blocks out.1.blocks

refresh_row-IsLater :
    (b : FinalizedProjection) (existing : Option BlockRow) (s : Store)
    → lookup b.height s.blocks ≡ existing
    → IsLater s.blocks (refresh_row b existing s).1.blocks
unfolding refresh_row
refresh_row-IsLater b none s e = IsLater-refl s.blocks
refresh_row-IsLater b (some row) s e =
    if_cases (Leads s) (has_bytes b row)
      (λ _.
        if_cases (Leads s) (has_hash b.block_hash b.height s.blocks) (λ _. IsLater-refl s.blocks)
          (insert-refreshed-IsLater b s.blocks row e))
      λ _. IsLater-refl s.blocks

refresh_block_projection-IsLater :
    (b : FinalizedProjection) (s : Store) → IsLater s.blocks (refresh_block_projection b s).1.blocks
unfolding refresh_block_projection
refresh_block_projection-IsLater b s =
    continue_cases (Leads s) (Leads s) (bind_integer b.height) _ s (IsLater-refl s.blocks)
      (λ _ h. h)
      λ _ _.
        continue_cases (Leads s) (Leads s) (bind_integer b.timestamp_ms) _ s (IsLater-refl s.blocks)
          (λ _ h. h) λ _ _. refresh_row-IsLater b (lookup b.height s.blocks) s refl

decide-blocks :
    (d : PersistedConsensusDecision) (height : ℕ) (existing : Option PersistedConsensusDecision)
    (s : Store)
    → (decide d height existing s).1.blocks ≡ s.blocks
unfolding decide repeat_decision
decide-blocks d height none s = ground arith
decide-blocks d height (some existing) s = ground arith

persist_decision-blocks :
    (d : PersistedConsensusDecision) (s : Store)
    → (persist_consensus_decision d s).1.blocks ≡ s.blocks
unfolding persist_consensus_decision in_transaction
persist_decision-blocks d s = elim (Option-cases (parse_u64 (first_part b'/' d.slot))) [
  | inl malformed ↦ ground (arith, malformed)
  | inr (height, parsed) ↦
      ground (arith, parsed, decide-blocks d height (find_decision d.slot s.signer_state) s)
]

persist_proposal-blocks :
    (p : PersistedConsensusProposal) (s : Store)
    → (persist_consensus_proposal p s).1.blocks ≡ s.blocks
unfolding persist_consensus_proposal insert_proposal
persist_proposal-blocks p s = ground arith

module _ (checksum : List ℕ → Text) where
  serve-IsLater : (r : Request) (s : Store) → IsLater s.blocks (serve checksum r s).blocks
  unfolding serve clear_projections append_consensus_event
  serve-IsLater (Request.finalized b) s = persist_finalized-IsLater b s
  serve-IsLater (Request.refresh b) s = refresh_block_projection-IsLater b s
  serve-IsLater Request.clear s = IsLater-refl s.blocks
  serve-IsLater (Request.decision d) s =
      subst (IsLater s.blocks) (sym (persist_decision-blocks d s)) (IsLater-refl s.blocks)
  serve-IsLater (Request.proposal p) s =
      subst (IsLater s.blocks) (sym (persist_proposal-blocks p s)) (IsLater-refl s.blocks)
  serve-IsLater (Request.event kind bytes) s = IsLater-refl s.blocks

  -- Whatever calls a store serves, a height that holds a block goes on to hold the same bytes of
  -- the block and of its certificate; and if every row stands under its own height and no two have
  -- one hash, that stays so.
  pub serve_all-IsLater :
      (requests : List Request) (s : Store)
      → IsLater s.blocks (serve_all checksum requests s).blocks
  unfolding serve_all
  serve_all-IsLater [] s = IsLater-refl s.blocks
  serve_all-IsLater (r ∷ rest) s =
      let next = serve checksum r s in
      IsLater-trans s.blocks next.blocks (serve_all checksum rest next).blocks (serve-IsLater r s)
        (serve_all-IsLater rest next)
