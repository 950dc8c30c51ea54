-- ===== src/Protocol/Commit/Assembly.antt =====
-- `CommitCertificate::new` of crates/kcoin-protocol/src/commit.rs against `verify`.
use multi_node_blockchain_kc.Prelude.{
  suc, ◌+◌, ◌≤◌, ◌<◌, ◌≡◌, refl, List, [], ◌∷◌, true, false, Option, none, some, ok, arith, length,
  All, is_ok, leb, Bool-cases, inl, inr,
}
use multi_node_blockchain_kc.Prelude.Maps.{Set, contains, add, contains-add, length-add, ℕ_key}
use multi_node_blockchain_kc.Protocol.Constants.{max_commit_certificate_bytes}
use multi_node_blockchain_kc.Protocol.Data.{ValidatorId, CommitVote, CommitSignature}
use multi_node_blockchain_kc.Protocol.Primitives.{Primitives}
use multi_node_blockchain_kc.Protocol.Commit.{
  to_set, not_before, verify_signature_entry, verify_signatures, verify, validate_vote_shape, place,
  sort_by_validator, new_certificate,
}
use multi_node_blockchain_kc.Protocol.Commit.Quorum.{IsDistinct, IsWithin, IsQuorum}
use multi_node_blockchain_kc.Protocol.Commit.Certificates.{
  signers, IsAscending, Signs, contains-to_set, length-signers,
}

length-place :
    (x : CommitSignature) (l : List CommitSignature) → length (place x l) ≡ suc (length l)
unfolding place
length-place x [] = refl
length-place x (y ∷ l) = ground (arith, length-place x l)

length-sort : (l : List CommitSignature) → length (sort_by_validator l) ≡ length l
unfolding sort_by_validator
length-sort [] = refl
length-sort (x ∷ l) = omega (arith, length-place x (sort_by_validator l), length-sort l)

contains-place :
    (v : ValidatorId) (x : CommitSignature) (l : List CommitSignature)
    → contains v (signers (place x l)) ≡ contains v (x.validator ∷ signers l)
unfolding place
contains-place v x [] = refl
contains-place v x (y ∷ l) = ground (arith, contains-place v x l)

contains-sort :
    (v : ValidatorId) (l : List CommitSignature)
    → contains v (signers (sort_by_validator l)) ≡ contains v (signers l)
unfolding sort_by_validator
contains-sort v [] = refl
contains-sort v (x ∷ l) =
    ground (arith, contains-place v x (sort_by_validator l), contains-sort v l)

-- A signer that is not among ascending ones has its place among them.
place-IsAscending :
    (previous : Option ValidatorId) (x : CommitSignature) (l : List CommitSignature)
    → not_before previous x.validator ≡ false
    → contains x.validator (signers l) ≡ false
    → IsAscending previous (signers l)
    → IsAscending previous (signers (place x l))
unfolding place
place-IsAscending previous x [] first new h = (first, tt)
place-IsAscending previous x (y ∷ l) first new h = elim (Bool-cases (leb x.validator y.validator)) [
  | inl before ↦ rw before (first, (ground (arith, new), h.1))
  | inr after ↦
      rw after (h.0, place-IsAscending (some y.validator) x l after (ground (arith, new)) h.1)
]

sort-IsAscending :
    (l : List CommitSignature)
    → IsDistinct (signers l)
    → IsAscending none (signers (sort_by_validator l))
unfolding sort_by_validator
sort-IsAscending [] h = tt
sort-IsAscending (x ∷ l) h =
    place-IsAscending none x (sort_by_validator l) refl
      (ground (arith, h.0, contains-sort x.validator l)) (sort-IsAscending l h.1)

length-to_set : (vs : List ValidatorId) → IsDistinct vs → length (to_set vs) ≡ length vs
length-to_set [] h = refl
length-to_set (v ∷ vs) h =
    ground (arith, h.0, length-add v (to_set vs), length-to_set vs h.1, contains-to_set v vs)

module _ ⦃p : Primitives⦄ where
  abbrev IsGood : List ValidatorId → CommitVote → CommitSignature → Type 0
  IsGood validators vote s =
      (contains s.validator validators ≡ true)
      × (p.is_verifying_key s.validator ≡ true)
      × Signs vote s

  abbrev IsBehind : Option ValidatorId → Set ValidatorId → Type 0
  IsBehind previous seen = (v : ValidatorId) → contains v seen ≡ true → not_before previous v ≡ true

  place-All :
      (P : CommitSignature → Type 0) (x : CommitSignature) (l : List CommitSignature)
      → P x
      → All P l
      → All P (place x l)
  unfolding place
  place-All P x [] px h = (px, tt)
  place-All P x (y ∷ l) px h = elim (Bool-cases (leb x.validator y.validator)) [
    | inl before ↦ rw before (px, h)
    | inr after ↦ rw after (h.0, place-All P x l px h.1)
  ]

  sort-All :
      (P : CommitSignature → Type 0) (l : List CommitSignature)
      → All P l
      → All P (sort_by_validator l)
  unfolding sort_by_validator
  sort-All P [] h = tt
  sort-All P (x ∷ l) h = place-All P x (sort_by_validator l) h.0 (sort-All P l h.1)

  IsBehind-add :
      (previous : Option ValidatorId) (seen : Set ValidatorId) (x : ValidatorId)
      → not_before previous x ≡ false
      → IsBehind previous seen
      → IsBehind (some x) (add x seen)
  IsBehind-add none seen x later behind v m = ground (arith, contains-add v x seen, behind v)
  IsBehind-add (some y) seen x later behind v m = ground (arith, contains-add v x seen, behind v)

  verify_signature_entry_good :
      (authorized seen : Set ValidatorId) (vote : CommitVote) (previous : Option ValidatorId)
      (s : CommitSignature)
      → IsGood authorized vote s
      → not_before previous s.validator ≡ false
      → contains s.validator seen ≡ false
      → verify_signature_entry authorized vote seen previous s ≡ ok (add s.validator seen)
  unfolding verify_signature_entry
  verify_signature_entry_good authorized seen vote previous s good later new = ground arith

  -- The loop over good signatures in order counts each of them.
  verify_signatures_good :
      (authorized seen : Set ValidatorId) (vote : CommitVote) (previous : Option ValidatorId)
      (l : List CommitSignature)
      → All (IsGood authorized vote) l
      → IsAscending previous (signers l)
      → IsBehind previous seen
      → (seen' : Set ValidatorId) × (verify_signatures authorized vote seen previous l ≡ ok seen')
        × (length seen' ≡ length seen + length l)
  unfolding verify_signatures
  verify_signatures_good authorized seen vote previous [] good order behind =
      (seen, refl, omega arith)
  verify_signatures_good authorized seen vote previous (s ∷ l) good order behind =
      let new : contains s.validator seen ≡ false = ground (arith, behind s.validator, order.0) in
      let entry = verify_signature_entry_good authorized seen vote previous s good.0 order.0 new in
      let next =
        verify_signatures_good authorized (add s.validator seen) vote (some s.validator) l good.1
          order.1 (IsBehind-add previous seen s.validator order.0 behind) in
      (next.0, rw entry (next.1), ground (arith, next.2, new, length-add s.validator seen))

  members_sign :
      (validators : List ValidatorId) (vote : CommitVote) (l : List CommitSignature)
      → IsWithin validators (signers l)
      → All (λ s. (p.is_verifying_key s.validator ≡ true) × Signs vote s) l
      → All (IsGood (to_set validators) vote) l
  members_sign validators vote [] within good = tt
  members_sign validators vote (s ∷ l) within good = (
    (rw (contains-to_set s.validator validators) within.0, good.0.0, good.0.1),
    members_sign validators vote l within.1 good.1,
  )

  -- A certificate that is put together from the signatures of a quorum of distinct validators, in
  -- any order, verifies for the set, if it is not empty and has no repetition, the vote has a
  -- valid shape, every key is valid and accepts its signature of the vote, and the certificate is
  -- within the size limit.
  pub verify-new_certificate :
      (vote : CommitVote) (signatures : List CommitSignature) (validators : List ValidatorId)
      → IsDistinct validators
      → 0 < length validators
      → is_ok (validate_vote_shape vote) ≡ true
      → length (p.certificate_bytes (new_certificate vote signatures))
        ≤ max_commit_certificate_bytes
      → IsQuorum validators (signers signatures)
      → All (λ s. (p.is_verifying_key s.validator ≡ true) × Signs vote s) signatures
      → is_ok (verify (new_certificate vote signatures) validators) ≡ true
  unfolding verify new_certificate
  verify-new_certificate vote signatures validators set some_validator shape size quorum good =
      let counted =
        verify_signatures_good (to_set validators) [] vote none (sort_by_validator signatures)
          (sort-All (IsGood (to_set validators) vote) signatures
            (members_sign validators vote signatures quorum.within good))
          (sort-IsAscending signatures quorum.distinct) (λ v m. cc) in
      let known = length-to_set validators set in
      let all_counted : length counted.0 ≡ length (signers signatures) =
        omega (arith, counted.2, length-sort signatures, length-signers signatures) in
      ground (arith, counted.1, known, all_counted, quorum.enough)
