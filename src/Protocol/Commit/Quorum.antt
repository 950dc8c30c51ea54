-- ===== src/Protocol/Commit/Quorum.antt =====
-- `quorum_size` of crates/kcoin-protocol/src/commit.rs: its size, and what two quorums share.
use multi_node_blockchain_kc.Prelude.{
  ℕ, ◌+◌, ◌-◌, ◌*◌, ◌/◌, ◌≤◌, ◌<◌, ◌≡◌, List, [], ◌∷◌, Bool, true, false, ◌&&◌, arith, length, All,
  Bool-cases, inl, inr,
}
use multi_node_blockchain_kc.Prelude.Maps.{contains, ℕ_key}
use multi_node_blockchain_kc.Protocol.Commit.{quorum_size}

-- The quorum of a set that is not empty is two thirds of it, rounded down, and one more.
quorum_size_lem : (n : ℕ) → 0 < n → quorum_size n ≡ 2 * n / 3 + 1
unfolding quorum_size
quorum_size_lem n h = ground arith

pub quorum_size-overlap : (n : ℕ) → 0 < n → n + (n - 1) / 3 + 1 ≤ quorum_size n + quorum_size n
unfolding quorum_size
quorum_size-overlap n h = ground arith

-- No element occurs twice.
abbrev pub IsDistinct : List ℕ → Type 0
IsDistinct [] = Unit
IsDistinct (x ∷ xs) = (contains x xs ≡ false) × IsDistinct xs

abbrev pub IsWithin : List ℕ → List ℕ → Type 0
IsWithin vs = All (λ x. contains x vs ≡ true)

abbrev one_if : Bool → ℕ
one_if true = 1
one_if false = 0

abbrev count : (ℕ → Bool) → List ℕ → ℕ
count p [] = 0
count p (x ∷ xs) = one_if (p x) + count p xs

count-contains_cons :
    (a : ℕ) (xs vs : List ℕ) → count (λ x. contains x xs) vs ≤ count (λ x. contains x (a ∷ xs)) vs
count-contains_cons a xs [] = omega arith
count-contains_cons a xs (v ∷ vs) = ground (arith, count-contains_cons a xs vs)

-- A new element of `xs` that occurs in `vs` is counted.
count-contains_new :
    (a : ℕ) (xs vs : List ℕ)
    → contains a vs ≡ true
    → contains a xs ≡ false
    → count (λ x. contains x xs) vs + 1 ≤ count (λ x. contains x (a ∷ xs)) vs
count-contains_new a xs [] h k = cc
count-contains_new a xs (v ∷ vs) h k =
    ground (arith, count-contains_new a xs vs, count-contains_cons a xs vs)

length-le-count :
    (xs vs : List ℕ) → IsDistinct xs → IsWithin vs xs → length xs ≤ count (λ x. contains x xs) vs
length-le-count [] vs d w = omega arith
length-le-count (a ∷ xs) vs d w =
    omega (arith, length-le-count xs vs d.1 w.1, count-contains_new a xs vs w.0 d.0)

count-absent :
    (a : ℕ) (xs vs : List ℕ)
    → contains a vs ≡ false
    → count (λ x. contains x (a ∷ xs)) vs ≤ count (λ x. contains x xs) vs
count-absent a xs [] h = omega arith
count-absent a xs (v ∷ vs) h = ground (arith, count-absent a xs vs)

count-contains_le_suc :
    (a : ℕ) (xs vs : List ℕ)
    → IsDistinct vs
    → count (λ x. contains x (a ∷ xs)) vs ≤ count (λ x. contains x xs) vs + 1
count-contains_le_suc a xs [] d = omega arith
count-contains_le_suc a xs (v ∷ vs) d =
    ground (arith, count-contains_le_suc a xs vs d.1, count-absent a xs vs)

count_none : (vs : List ℕ) → count (λ x. contains x []) vs ≡ 0
count_none [] = omega arith
count_none (v ∷ vs) = omega (arith, count_none vs)

count-le-length : (xs vs : List ℕ) → IsDistinct vs → count (λ x. contains x xs) vs ≤ length xs
count-le-length [] vs d = omega (arith, count_none vs)
count-le-length (a ∷ xs) vs d =
    omega (arith, count-le-length xs vs d, count-contains_le_suc a xs vs d)

count_both :
    (p q : ℕ → Bool) (vs : List ℕ)
    → count p vs + count q vs ≤ length vs + count (λ x. p x && q x) vs
count_both p q [] = omega arith
count_both p q (v ∷ vs) = ground (arith, count_both p q vs)

-- More elements with one test than with another: one has the first and not the second.
pick :
    (p q : ℕ → Bool) (vs : List ℕ)
    → count q vs < count p vs
    → (v : ℕ) × (p v ≡ true) × (q v ≡ false)
pick p q [] h = absurd (omega arith)
pick p q (v ∷ vs) h = elim (Bool-cases (p v)) [
  | inl pv ↦ elim (Bool-cases (q v)) [ inl qv ↦ pick p q vs (ground arith) | inr qv ↦ (v, pv, qv) ]
  | inr pv ↦ pick p q vs (ground arith)
]

-- What makes a list of signers a quorum of a validator set.
pub record IsQuorum (validators signers : List ℕ) : Type 0 where
  pub distinct : IsDistinct signers
  pub within : IsWithin validators signers
  pub enough : quorum_size (length validators) ≤ length signers

-- Two quorums of one set of distinct validators share a member outside any list of at most (N - 1)
-- / 3 faulty ones, rounded down, where N is the size of the set, which is not empty.
pub quorums_share_correct :
    (validators faulty left right : List ℕ)
    → IsDistinct validators
    → 0 < length validators
    → length faulty ≤ (length validators - 1) / 3
    → IsQuorum validators left
    → IsQuorum validators right
    → (v : ℕ) × (contains v left ≡ true) × (contains v right ≡ true) × (contains v faulty ≡ false)
quorums_share_correct validators faulty left right d pos few l r =
    let found =
      pick (λ x. contains x left && contains x right) (λ x. contains x faulty) validators
        (omega (
          arith,
          count_both (λ x. contains x left) (λ x. contains x right) validators,
          length-le-count left validators l.distinct l.within,
          length-le-count right validators r.distinct r.within,
          count-le-length faulty validators d,
          quorum_size-overlap (length validators) pos,
          l.enough,
          r.enough,
        )) in
    (found.0, ground (arith, found.1), ground (arith, found.1), found.2)
