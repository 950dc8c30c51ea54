-- ===== src/Protocol/Merkle/Rounds.antt =====
-- The loop of `merkle_root` in crates/kcoin-protocol/src/block.rs against the tree that its comment
-- describes, read from the root down.
use multi_node_blockchain_kc.Prelude.{
  ℕ, zero, suc, ◌+◌, ◌≤◌, ◌<◌, List, [], ◌∷◌, map, length, arith, ◌≡◌, refl, ap, sym, ◌∙◌, ◌-◌, leb,
  Bool-cases, Bool, inl, inr, true, false, if◌then◌else◌,
}
use multi_node_blockchain_kc.Protocol.Constants.{merkle_node_domain}
use multi_node_blockchain_kc.Protocol.Data.{Hash32, SignedTransaction}
use multi_node_blockchain_kc.Protocol.Primitives.{Primitives}
use multi_node_blockchain_kc.Protocol.Identity.{hash_pair}
use multi_node_blockchain_kc.Protocol.Merkle.{next_level, reduce_levels, leaf, merkle_root}

-- The first elements of a list, and what follows them.
front : {A : Type 0} → ℕ → List A → List A
front zero l = []
front (suc n) [] = []
front (suc n) (x ∷ l) = x ∷ front n l

back : {A : Type 0} → ℕ → List A → List A
back zero l = l
back (suc n) [] = []
back (suc n) (x ∷ l) = back n l

front_nil : (n : ℕ) → front {A = Hash32} n [] ≡ []
unfolding front
front_nil zero = refl
front_nil (suc n) = refl

back_nil : (n : ℕ) → back {A = Hash32} n [] ≡ []
unfolding back
back_nil zero = refl
back_nil (suc n) = refl

abbrev pub twice : ℕ → ℕ
twice zero = zero
twice (suc n) = suc (suc (twice n))

twice_lem : (n : ℕ) → twice n ≡ n + n
twice_lem zero = refl
twice_lem (suc n) = omega (arith, twice_lem n)

length-front : (n : ℕ) (l : List Hash32) → length (front n l) ≤ n
unfolding front
length-front zero l = omega arith
length-front (suc n) [] = omega arith
length-front (suc n) (x ∷ l) = omega (arith, length-front n l)

front_some : (n : ℕ) (l : List Hash32) → 0 < n → 0 < length l → 0 < length (front n l)
unfolding front
front_some zero l h k = absurd (omega (arith, h))
front_some (suc n) [] h k = absurd (omega (arith, k))
front_some (suc n) (x ∷ l) h k = omega arith

length-back : (n : ℕ) (l : List Hash32) → length (back n l) ≡ length l - n
unfolding back
length-back zero l = omega arith
length-back (suc n) [] = omega arith
length-back (suc n) (x ∷ l) = omega (arith, length-back n l)

-- The number of leaves of a full binary tree.
abbrev pub capacity : ℕ → ℕ
capacity zero = 1
capacity (suc depth) = twice (capacity depth)

capacity_some : (depth : ℕ) → 0 < capacity depth
capacity_some zero = omega arith
capacity_some (suc depth) = omega (arith, capacity_some depth, twice_lem (capacity depth))

module _ ⦃p : Primitives⦄ where
  -- The node over two halves, or over one that fills the tree alone.
  abbrev pub join : Bool → Hash32 → Hash32 → Hash32
  join is_alone left right = hash_pair merkle_node_domain left (if is_alone then left else right)

  join_alone :
      {b c : Bool} {x y : Hash32} (u v : Hash32)
      → b ≡ true
      → c ≡ true
      → x ≡ y
      → join b x u ≡ join c y v
  join_alone u v e f same = ground (arith, e, f, same)

  join_both :
      {b c : Bool} {x y u v : Hash32}
      → b ≡ false
      → c ≡ false
      → x ≡ y
      → u ≡ v
      → join b x u ≡ join c y v
  join_both e f same others = ground (arith, e, f, same, others)

  -- The root of the tree of a depth over some leaves: the left half holds as many as fit, and a
  -- right half without any leaf is a copy of the left one.
  pub tree_root : ℕ → List Hash32 → Hash32
  unfolding front back
  tree_root zero [] = 0
  tree_root zero (node ∷ rest) = node
  tree_root (suc depth) l =
      let left = tree_root depth (front (capacity depth) l) in
      let right = tree_root depth (back (capacity depth) l) in
      join (leb (length l) (capacity depth)) left right

  length-next_level :
      (l : List Hash32)
      → (length l ≤ length (next_level l) + length (next_level l))
        × (length (next_level l) + length (next_level l) ≤ length l + 1)
  unfolding next_level
  length-next_level [] = omega arith
  length-next_level (a ∷ []) = omega arith
  length-next_level (a ∷ b ∷ l) = omega (arith, length-next_level l)

  next_level-front :
      (n : ℕ) (l : List Hash32) → next_level (front (twice n) l) ≡ front n (next_level l)
  unfolding next_level front
  next_level-front zero l = refl
  next_level-front (suc n) [] = refl
  next_level-front (suc n) (a ∷ []) =
      ap (λ rest. hash_pair merkle_node_domain a a ∷ rest) (sym (front_nil n))
  next_level-front (suc n) (a ∷ b ∷ l) =
      ap (λ rest. hash_pair merkle_node_domain a b ∷ rest) (next_level-front n l)

  next_level-back :
      (n : ℕ) (l : List Hash32) → next_level (back (twice n) l) ≡ back n (next_level l)
  unfolding next_level back
  next_level-back zero l = refl
  next_level-back (suc n) [] = refl
  next_level-back (suc n) (a ∷ []) = sym (back_nil n)
  next_level-back (suc n) (a ∷ b ∷ l) = next_level-back n l

  -- A pass of the loop takes the lowest nodes off the tree.
  tree_root-next_level :
      (depth : ℕ) (l : List Hash32)
      → 0 < length l
      → length l ≤ capacity (suc depth)
      → tree_root (suc depth) l ≡ tree_root depth (next_level l)
  unfolding tree_root next_level front back
  tree_root-next_level zero [] some fits = absurd (omega (arith, some))
  tree_root-next_level zero (a ∷ []) some fits = refl
  tree_root-next_level zero (a ∷ b ∷ []) some fits = refl
  tree_root-next_level zero (a ∷ b ∷ c ∷ l) some fits = absurd (omega (arith, fits))
  tree_root-next_level (suc depth) l some fits =
      let n = capacity depth in
      let double = twice_lem n in
      let double' = twice_lem (twice n) in
      let halves = length-next_level l in
      let left : tree_root (suc depth) (front (twice n) l)
          ≡ tree_root depth (front n (next_level l)) =
        tree_root-next_level depth (front (twice n) l)
          (front_some (twice n) l (omega (arith, capacity_some depth, double)) some)
          (length-front (twice n) l)
        ∙ ap (tree_root depth) (next_level-front n l) in
      elim (Bool-cases (leb (length l) (twice n))) [
        | inl few ↦
            let few' : leb (length (next_level l)) n ≡ true = ground (arith, few, halves, double) in
            join_alone _ _ few few' left
        | inr many ↦
            let many' : leb (length (next_level l)) n ≡ false =
              ground (arith, many, halves, double) in
            let right : tree_root (suc depth) (back (twice n) l)
                ≡ tree_root depth (back n (next_level l)) =
              tree_root-next_level depth (back (twice n) l)
                (ground (arith, many, length-back (twice n) l))
                (omega (arith, fits, length-back (twice n) l, double, double'))
              ∙ ap (tree_root depth) (next_level-back n l) in
            join_both many many' left right
      ]

  tree_root-reduce_levels :
      (fuel depth : ℕ) (node : Hash32) (rest : List Hash32)
      → length rest ≤ fuel
      → suc (length rest) ≤ capacity depth
      → capacity depth < suc (length rest) + suc (length rest)
      → reduce_levels fuel node rest ≡ tree_root depth (node ∷ rest)
  unfolding reduce_levels next_level tree_root
  tree_root-reduce_levels fuel zero node [] enough fits least = refl
  tree_root-reduce_levels fuel (suc depth) node [] enough fits least =
      absurd (omega (arith, least, capacity_some depth, twice_lem (capacity depth)))
  tree_root-reduce_levels fuel zero node (right ∷ rest) enough fits least =
      absurd (omega (arith, fits))
  tree_root-reduce_levels zero (suc depth) node (right ∷ rest) enough fits least =
      absurd (omega (arith, enough))
  tree_root-reduce_levels (suc fuel) (suc depth) node (right ∷ rest) enough fits least =
      let halves = length-next_level rest in
      let double = twice_lem (capacity depth) in
      tree_root-reduce_levels fuel depth (hash_pair merkle_node_domain node right) (next_level rest)
        (omega (arith, enough, halves)) (omega (arith, fits, halves, double))
        (omega (arith, least, halves, double))
      ∙ sym (tree_root-next_level depth (node ∷ right ∷ rest) (omega arith) fits)

  length-map : (l : List SignedTransaction) → length (map leaf l) ≡ length l
  length-map [] = refl
  length-map (x ∷ l) = ap suc (length-map l)

  -- The Merkle root of some transactions is the root of the full binary tree over their leaves, of
  -- the least depth that has room for them, where a left half stands in for a right half without
  -- any leaf.
  pub merkle_root-tree_root :
      (t : SignedTransaction) (ts : List SignedTransaction) (depth : ℕ)
      → length (t ∷ ts) ≤ capacity depth
      → capacity depth < length (t ∷ ts) + length (t ∷ ts)
      → merkle_root (t ∷ ts) ≡ tree_root depth (leaf t ∷ map leaf ts)
  unfolding merkle_root
  merkle_root-tree_root t ts depth fits least =
      let same = length-map ts in
      tree_root-reduce_levels (length ts) depth (leaf t) (map leaf ts) (omega (arith, same))
        (omega (arith, fits, same)) (omega (arith, least, same))
