-- ===== src/Protocol/Commit/Certificates.antt =====
-- `CommitCertificate::verify` of crates/kcoin-protocol/src/commit.rs: what a verified certificate
-- shows, alone and beside another.
use multi_node_blockchain_kc.Prelude.{
  ◌+◌, ◌-◌, ◌/◌, ◌≤◌, ◌<◌, ◌≡◌, refl, List, [], ◌∷◌, true, false, Option, none, some, Result, ok,
  err, arith, length, All, is_ok, ap, suc, ℕ_discrete, subst, sym, >>=-ok,
}
use mathlib.Core.List.{Memᴰ}
use multi_node_blockchain_kc.Prelude.Maps.{Set, contains, add, contains-add, length-add, ℕ_key}
use multi_node_blockchain_kc.Protocol.Data.{
  ValidatorId, CommitVote, CommitSignature, CommitCertificate,
}
use multi_node_blockchain_kc.Protocol.Errors.{ValidationError}
use multi_node_blockchain_kc.Protocol.Primitives.{Primitives}
use multi_node_blockchain_kc.Protocol.Commit.{
  quorum_size, vote_of, to_set, not_before, vote_signing_bytes, verify_signature_entry,
  verify_signatures, verify,
}
use multi_node_blockchain_kc.Protocol.Commit.Quorum.{
  IsDistinct, IsWithin, IsQuorum, quorums_share_correct,
}

abbrev pub signers : List CommitSignature → List ValidatorId
signers [] = []
signers (s ∷ rest) = s.validator ∷ signers rest

-- Strictly ascending, from a lower bound on.
abbrev pub IsAscending : Option ValidatorId → List ValidatorId → Type 0
IsAscending previous [] = Unit
IsAscending previous (v ∷ vs) = (not_before previous v ≡ false) × IsAscending (some v) vs

pub contains-to_set :
    (v : ValidatorId) (vs : List ValidatorId) → contains v (to_set vs) ≡ contains v vs
contains-to_set v [] = refl
contains-to_set v (w ∷ vs) = ground (arith, contains-add v w (to_set vs), contains-to_set v vs)

length-to_set : (vs : List ValidatorId) → length (to_set vs) ≤ length vs
length-to_set [] = omega arith
length-to_set (v ∷ vs) = ground (arith, length-add v (to_set vs), length-to_set vs)

-- The test on the number of authorized keys finds every repetition.
to_set-IsDistinct : (vs : List ValidatorId) → length (to_set vs) ≡ length vs → IsDistinct vs
to_set-IsDistinct [] h = tt
to_set-IsDistinct (v ∷ vs) h = (
  ground (arith, length-add v (to_set vs), length-to_set vs, contains-to_set v vs),
  to_set-IsDistinct vs (ground (arith, length-add v (to_set vs), length-to_set vs)),
)

pub length-signers : (l : List CommitSignature) → length (signers l) ≡ length l
length-signers [] = refl
length-signers (s ∷ l) = ap suc (length-signers l)

module _ ⦃p : Primitives⦄ where
  -- The key accepts the signature as one of the vote.
  abbrev pub Signs : CommitVote → CommitSignature → Type 0
  Signs vote s = p.verify_strict s.validator (vote_signing_bytes vote) s.signature ≡ true

  abbrev pub Fresh : Set ValidatorId → List ValidatorId → Type 0
  Fresh seen = All (λ v. contains v seen ≡ false)

  pub unseen_before :
      (seen : Set ValidatorId) (s : ValidatorId) (vs : List ValidatorId)
      → Fresh (add s seen) vs
      → Fresh seen vs × (contains s vs ≡ false)
  unseen_before seen s [] h = (tt, refl)
  unseen_before seen s (v ∷ vs) h =
      ground (arith, contains-add v s seen, unseen_before seen s vs h.1)

  record IsVerified (authorized : Set ValidatorId) (vote : CommitVote) (seen : Set ValidatorId)
      (previous : Option ValidatorId) (l : List CommitSignature) (seen' : Set ValidatorId)
      : Type 0 where
    counted : length seen' ≡ length seen + length l
    within : IsWithin authorized (signers l)
    fresh : Fresh seen (signers l)
    distinct : IsDistinct (signers l)
    ascending : IsAscending previous (signers l)
    valid : All (Signs vote) l

  record EntryOk (authorized : Set ValidatorId) (vote : CommitVote) (seen : Set ValidatorId)
      (previous : Option ValidatorId) (s : CommitSignature) (seen' : Set ValidatorId) : Type 0 where
    member : contains s.validator authorized ≡ true
    unseen : contains s.validator seen ≡ false
    after : not_before previous s.validator ≡ false
    signs : Signs vote s
    adds : seen' ≡ add s.validator seen

  verify_signature_entry-EntryOk :
      (authorized : Set ValidatorId) (vote : CommitVote) (seen : Set ValidatorId)
      (previous : Option ValidatorId) (s : CommitSignature) (seen' : Set ValidatorId)
      → verify_signature_entry authorized vote seen previous s ≡ ok seen'
      → EntryOk authorized vote seen previous s seen'
  unfolding verify_signature_entry
  verify_signature_entry-EntryOk authorized vote seen previous s seen' e = record {
    member = ground arith;
    unseen = ground arith;
    after = ground arith;
    signs = ground arith;
    adds = ground arith;
  }

  verify_signatures-IsVerified :
      (authorized : Set ValidatorId) (vote : CommitVote) (seen : Set ValidatorId)
      (previous : Option ValidatorId) (l : List CommitSignature) (seen' : Set ValidatorId)
      → verify_signatures authorized vote seen previous l ≡ ok seen'
      → IsVerified authorized vote seen previous l seen'
  unfolding verify_signatures
  verify_signatures-IsVerified authorized vote seen previous [] seen' e = record {
    counted = ground arith;
    within = tt;
    fresh = tt;
    distinct = tt;
    ascending = tt;
    valid = tt;
  }
  verify_signatures-IsVerified authorized vote seen previous (s ∷ rest) seen' e =
      let (mid, first, e') = >>=-ok _ (verify_signature_entry authorized vote seen previous s) e in
      let one = verify_signature_entry-EntryOk authorized vote seen previous s mid first in
      let more =
        verify_signatures-IsVerified authorized vote mid (some s.validator) rest seen' e' in
      let apart =
        unseen_before seen s.validator (signers rest)
          (subst (λ m. Fresh m (signers rest)) one.adds more.fresh) in
      record {
        counted = ground (arith, more.counted, one.adds, one.unseen, length-add s.validator seen);
        within = (one.member, more.within);
        fresh = (one.unseen, apart.0);
        distinct = (apart.1, more.distinct);
        ascending = (one.after, more.ascending);
        valid = (one.signs, more.valid);
      }

  -- What a certificate that verifies shows of a validator set.
  pub record IsCertified (c : CommitCertificate) (validators : List ValidatorId) : Type 0 where
    pub set : IsDistinct validators
    pub nonempty : 0 < length validators
    pub quorum : IsQuorum validators (signers c.signatures)
    pub ascending : IsAscending none (signers c.signatures)
    pub valid : All (Signs (vote_of c)) c.signatures

  members_of_list :
      (validators vs : List ValidatorId) → IsWithin (to_set validators) vs → IsWithin validators vs
  members_of_list validators [] h = tt
  members_of_list validators (v ∷ vs) h =
      (rw (← contains-to_set v validators) h.0, members_of_list validators vs h.1)

  record Inverted (c : CommitCertificate) (validators : List ValidatorId) : Type 0 where
    seen : Set ValidatorId
    size : length (to_set validators) ≡ length validators
    nonempty : 0 < length validators
    looped : verify_signatures (to_set validators) (vote_of c) [] none c.signatures ≡ ok seen
    enough : quorum_size (length validators) ≤ length seen

  invert :
      (c : CommitCertificate) (validators : List ValidatorId)
      → is_ok (verify c validators) ≡ true
      → Inverted c validators
  unfolding verify
  invert c validators h =
      go (verify_signatures (to_set validators) (vote_of c) [] none c.signatures) refl
    where
      go :
          (r : Result ValidationError (Set ValidatorId))
          → verify_signatures (to_set validators) (vote_of c) [] none c.signatures ≡ r
          → Inverted c validators
      go (ok seen) e = record {
        seen = seen;
        size = ground arith;
        nonempty = ground arith;
        looped = e;
        enough = ground arith;
      }
      go (err x) e = absurd (ground arith)

  -- A certificate that verifies for a list of validators is signed by at least a quorum of them,
  -- each once and in ascending order, with a valid signature of the certificate's vote, and the
  -- list is not empty and has no repetition.
  pub verify-IsCertified :
      (c : CommitCertificate) (validators : List ValidatorId)
      → is_ok (verify c validators) ≡ true
      → IsCertified c validators
  verify-IsCertified c validators h =
      let inv = invert c validators h in
      let loop =
        verify_signatures-IsVerified (to_set validators) (vote_of c) [] none c.signatures inv.seen
          inv.looped in
      record {
        set = to_set-IsDistinct validators inv.size;
        nonempty = inv.nonempty;
        quorum = record {
          distinct = loop.distinct;
          within = members_of_list validators (signers c.signatures) loop.within;
          enough = omega (arith, inv.enough, loop.counted, length-signers c.signatures);
        };
        ascending = loop.ascending;
        valid = loop.valid;
      }

  -- A record of the votes that each validator has signed. A certificate is authentic if nobody has
  -- forged a signature in it: the votes that the keys of validators who are not faulty accept are
  -- ones that these have signed.
  abbrev pub IsAuthentic :
      (ValidatorId → List CommitVote) → List ValidatorId → CommitCertificate → Type 0
  IsAuthentic signed faulty c =
      (s : CommitSignature)
      → Memᴰ s c.signatures
      → contains s.validator faulty ≡ false
      → p.verify_strict s.validator (vote_signing_bytes (vote_of c)) s.signature ≡ true
      → Memᴰ (vote_of c) (signed s.validator)

  -- The entry of a signer.
  entry_of :
      (vote : CommitVote) (l : List CommitSignature) (v : ValidatorId)
      → All (Signs vote) l
      → contains v (signers l) ≡ true
      → (s : CommitSignature) × Memᴰ s l × (s.validator ≡ v) × Signs vote s
  entry_of vote [] v h m = cc
  entry_of vote (s ∷ l) v h m = elim (ℕ_discrete v s.validator) [
    | yes e ↦ (s, Memᴰ.head refl, sym e, h.0)
    | no n ↦
        let (found, inside, same, signs) = entry_of vote l v h.1 (ground arith) in
        (found, Memᴰ.tail inside, same, signs)
  ]

  has_signed :
      (signed : ValidatorId → List CommitVote) (faulty : List ValidatorId) (c : CommitCertificate)
      (v : ValidatorId)
      → All (Signs (vote_of c)) c.signatures
      → IsAuthentic signed faulty c
      → contains v (signers c.signatures) ≡ true
      → contains v faulty ≡ false
      → Memᴰ (vote_of c) (signed v)
  has_signed signed faulty c v valid authentic signer good =
      let (s, inside, same, signs) = entry_of (vote_of c) c.signatures v valid signer in
      subst (λ w. Memᴰ (vote_of c) (signed w)) same
        (authentic s inside (subst (λ w. contains w faulty ≡ false) (sym same) good) signs)

-- Never two votes of one height and round for different blocks.
abbrev pub IsHonest : List CommitVote → Type 0
IsHonest votes =
    (a b : CommitVote)
    → Memᴰ a votes
    → Memᴰ b votes
    → a.height ≡ b.height
    → a.round ≡ b.round
    → a.block_hash ≡ b.block_hash

module _ ⦃p : Primitives⦄ where
  -- Two certificates of one height and round that verify for the same validators are for the same
  -- block, if all N validators but at most (N - 1) / 3, rounded down, have signed at most one
  -- block of each height and round, and nobody has forged one of their signatures in the two
  -- certificates.
  pub verify_agreement :
      (c d : CommitCertificate) (validators faulty : List ValidatorId)
      (signed : ValidatorId → List CommitVote)
      → is_ok (verify c validators) ≡ true
      → is_ok (verify d validators) ≡ true
      → length faulty ≤ (length validators - 1) / 3
      → ((v : ValidatorId) → contains v faulty ≡ false → IsHonest (signed v))
      → IsAuthentic signed faulty c
      → IsAuthentic signed faulty d
      → c.height ≡ d.height
      → c.round ≡ d.round
      → c.block_hash ≡ d.block_hash
  verify_agreement c d validators faulty signed vc vd few honest ac ad h r =
      let left = verify-IsCertified c validators vc in
      let right = verify-IsCertified d validators vd in
      let (v, in_c, in_d, good) =
        quorums_share_correct validators faulty (signers c.signatures) (signers d.signatures)
          left.set left.nonempty few left.quorum right.quorum in
      honest v good (vote_of c) (vote_of d) (has_signed signed faulty c v left.valid ac in_c good)
        (has_signed signed faulty d v right.valid ad in_d good) h r
