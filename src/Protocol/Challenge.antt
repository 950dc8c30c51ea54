-- ===== src/Protocol/Challenge.antt =====
-- `Challenge` of crates/kcoin-protocol/src/ledger.rs: the arithmetic challenge of an identifier.
pub mod Answers
use multi_node_blockchain_kc.Prelude.{
  ℕ, zero, suc, ◌+◌, ◌*◌, ◌-◌, ◌/◌, ◌%◌, ◌^◌, List, [], ◌∷◌, ltb, ◌==◌, if◌then◌else◌,
}
use multi_node_blockchain_kc.Protocol.Constants.{challenge_hash_domain}
use multi_node_blockchain_kc.Protocol.Data.{Hash32}
use multi_node_blockchain_kc.Protocol.Primitives.{Primitives}
use multi_node_blockchain_kc.Protocol.Identity.{hash_bytes, byte_at}

pub data ChallengeOperation : Type 0 where
  add subtract multiply : ChallengeOperation

pub record Challenge : Type 0 where
  pub id : ℕ
  pub operation : ChallengeOperation
  pub left : ℕ
  pub right : ℕ

unfoldable pub to_le_bytes : ℕ → ℕ → List ℕ
to_le_bytes zero n = []
to_le_bytes (suc w) n = (n % 256) ∷ to_le_bytes w (n / 256)

abbrev pub operation_of : ℕ → ChallengeOperation
operation_of b = if b % 3 == 0 then add else if b % 3 == 1 then subtract else multiply

-- A subtraction has its larger operand first.
abbrev pub ordered : ℕ → ChallengeOperation → ℕ → ℕ → Challenge
ordered id subtract left right =
    if ltb left right
    then record { id = id; operation = subtract; left = right; right = left }
    else record { id = id; operation = subtract; left = left; right = right }
ordered id operation left right = record {
  id = id;
  operation = operation;
  left = left;
  right = right;
}

unfoldable pub of_digest : ℕ → Hash32 → Challenge
of_digest id digest =
    ordered id (operation_of (byte_at 0 digest)) (1 + byte_at 1 digest % 9)
      (1 + byte_at 2 digest % 9)

unfoldable pub for_id : ⦃p : Primitives⦄ → ℕ → Challenge
unfolding of_digest
for_id id = of_digest id (hash_bytes challenge_hash_domain (to_le_bytes 8 id))

-- `u16` arithmetic: a difference below zero would wrap.
abbrev pub answer_of : ChallengeOperation → ℕ → ℕ → ℕ
answer_of add left right = (left + right) % 2 ^ 16
answer_of subtract left right = (left + 2 ^ 16 - right) % 2 ^ 16
answer_of multiply left right = left * right % 2 ^ 16

unfoldable pub answer : Challenge → ℕ
answer c = answer_of c.operation c.left c.right
