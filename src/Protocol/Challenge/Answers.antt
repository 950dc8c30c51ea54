-- ===== src/Protocol/Challenge/Answers.antt =====
-- `Challenge::answer` of crates/kcoin-protocol/src/ledger.rs without its wrap-around.
use multi_node_blockchain_kc.Prelude.{ℕ, ◌+◌, ◌*◌, ◌≤◌, ◌≡◌, ◌%◌, arith}
use multi_node_blockchain_kc.Protocol.Constants.{challenge_hash_domain}
use multi_node_blockchain_kc.Protocol.Primitives.{Primitives}
use multi_node_blockchain_kc.Protocol.Identity.{byte_at, hash_bytes}
use multi_node_blockchain_kc.Protocol.Challenge.{
  ChallengeOperation, add, subtract, multiply, Challenge, operation_of, ordered, of_digest, for_id,
  answer, to_le_bytes,
}
use native.Mathlib.Nat.{mul-le-mul_right, mod-eq_of_lt}

-- The answer is the operation's result on natural numbers, and a difference does not stop at zero.
abbrev pub IsExact : Challenge → ChallengeOperation → Type 0
IsExact c add = answer c ≡ c.left + c.right
IsExact c subtract = (c.right ≤ c.left) × (answer c + c.right ≡ c.left)
IsExact c multiply = answer c ≡ c.left * c.right

abbrev IsDigit : ℕ → Type 0
IsDigit n = (1 ≤ n) × (n ≤ 9)

operand_bounds : (n : ℕ) → IsDigit (1 + n % 9)
operand_bounds n = (omega arith, omega arith)

ordered-IsExact :
    (id : ℕ) (o : ChallengeOperation) (x y : ℕ)
    → 1 ≤ x
    → x ≤ 9
    → 1 ≤ y
    → y ≤ 9
    → IsExact (ordered id o x y) (ordered id o x y).operation
      × IsDigit (ordered id o x y).left
      × IsDigit (ordered id o x y).right
unfolding answer
ordered-IsExact id add x y hx kx hy ky = ground arith
ordered-IsExact id subtract x y hx kx hy ky = ground arith
ordered-IsExact id multiply x y hx kx hy ky =
    (mod-eq_of_lt (omega (arith, mul-le-mul_right y kx, ky)), (hx, kx), (hy, ky))

-- The challenge of every identifier has operands from 1 to 9, and its answer is the exact result
-- of its operation on them, never a negative one.
pub for_id-IsExact :
    ⦃p : Primitives⦄ (id : ℕ)
    → IsExact (for_id id) (for_id id).operation
      × ((1 ≤ (for_id id).left) × ((for_id id).left ≤ 9))
      × ((1 ≤ (for_id id).right) × ((for_id id).right ≤ 9))
unfolding for_id of_digest
for_id-IsExact id =
    let digest = hash_bytes challenge_hash_domain (to_le_bytes 8 id) in
    let left = operand_bounds (byte_at 1 digest) in
    let right = operand_bounds (byte_at 2 digest) in
    ordered-IsExact id (operation_of (byte_at 0 digest)) (1 + byte_at 1 digest % 9)
      (1 + byte_at 2 digest % 9) left.0 left.1 right.0 right.1
