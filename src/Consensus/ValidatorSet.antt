-- ===== src/Consensus/ValidatorSet.antt =====
-- `ValidatorSet` of crates/kcoin-consensus/src/types.rs.
pub mod Rotation
use multi_node_blockchain_kc.Prelude.{
  ℕ, ◌+◌, ◌-◌, ◌%◌, ◌^◌, List, [], ◌∷◌, Bool, Option, none, some, Result, ok, err, length,
  get_elem?, ◌==◌, if◌then◌else◌,
}
use multi_node_blockchain_kc.Prelude.Results.{◌>>=◌, ◌>>◌}
use multi_node_blockchain_kc.Prelude.Maps.{Set, contains, add, ℕ_key}
use multi_node_blockchain_kc.Protocol.Commit.{quorum_size}
use multi_node_blockchain_kc.Consensus.Types.{ValidatorId, Height, Round}

pub data ValidatorSetError : Type 0 where
  empty : ValidatorSetError
  duplicate : ValidatorId → ValidatorSetError

pub record ValidatorSet : Type 0 where
  pub validators : List ValidatorId

-- The loop that fills `seen`.
unfoldable pub check_distinct : Set ValidatorId → List ValidatorId → Result ValidatorSetError Unit
check_distinct seen [] = ok tt
check_distinct seen (v ∷ vs) =
    let rest = check_distinct (add v seen) vs in if contains v seen then err (duplicate v) else rest

unfoldable pub new : List ValidatorId → Result ValidatorSetError ValidatorSet
new validators =
    if length validators == 0
    then err empty
    else check_distinct [] validators >> ok (record { validators = validators })

abbrev pub is_member : ValidatorSet → ValidatorId → Bool
is_member s v = contains v s.validators

abbrev pub size : ValidatorSet → ℕ
size s = length s.validators

abbrev pub quorum : ValidatorSet → ℕ
quorum s = quorum_size (length s.validators)

-- The index into the rotation, in the 64-bit `usize` of a release build.
unfoldable pub rotation_index : ℕ → Height → Round → ℕ
rotation_index count height round = (height - 1 + round) % 2 ^ 64 % count

-- The index is below the length of a set that is not empty; out of range the code would panic.
abbrev pub at_index : List ValidatorId → ℕ → ValidatorId
at_index validators i = elim (get_elem? validators i) [ none ↦ 0 | some v ↦ v ]

unfoldable pub proposer : ValidatorSet → Height → Round → ValidatorId
unfolding rotation_index
proposer s height round = at_index s.validators (rotation_index (length s.validators) height round)
