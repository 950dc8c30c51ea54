-- ===== src/Prelude/Maps.antt =====
-- `BTreeMap` and `BTreeSet` as association lists in key order. A key type has decidable equality
-- and the order that Rust derives for it.
use multi_node_blockchain_kc.Prelude.Lists.{length}
use multi_node_blockchain_kc.Prelude.Tests.{ltb, if◌then◌else◌, does, Bool-cases}
use Prim.Native.Nat.{ℕ, ◌+◌}
use mathlib.Core.Path.{◌≡◌, refl}
use mathlib.Core.Logic.{inl, inr}
use mathlib.Core.Bool.{Bool, true, false, ◌||◌}
use mathlib.Core.Option.{Option, none, some}
use mathlib.Core.List.{List, [], ◌∷◌}
use native.Mathlib.Omega.{arith}
use native.Mathlib.Decide.{ℕ_discrete}

pub record Key (K : Type 0) : Type 0 where
  pub dec : (a b : K) → Dec (a ≡ b)
  pub before : K → K → Bool

instance abbrev pub ℕ_key : Key ℕ
ℕ_key = record { dec = ℕ_discrete; before = ltb }

abbrev pub Map : Type 0 → Type 0 → Type 0
Map K V = List (K × V)

module _ {K V : Type 0} ⦃key : Key K⦄ where
  abbrev pub lookup : K → Map K V → Option V
  lookup k [] = none
  lookup k ((j, v) ∷ m) = if does (key.dec k j) then some v else lookup k m

  abbrev pub contains_key : K → Map K V → Bool
  contains_key k m = elim (lookup k m) [ none ↦ false | some _ ↦ true ]

  abbrev pub replace : K → V → Map K V → Map K V
  replace k v [] = []
  replace k v ((j, w) ∷ m) = if does (key.dec k j) then (k, v) ∷ m else (j, w) ∷ replace k v m

  -- A new key goes before the first later one.
  abbrev pub insert_new : K → V → Map K V → Map K V
  insert_new k v [] = (k, v) ∷ []
  insert_new k v ((j, w) ∷ m) =
      if key.before k j then (k, v) ∷ (j, w) ∷ m else (j, w) ∷ insert_new k v m

  abbrev pub insert : K → V → Map K V → Map K V
  insert k v m = if contains_key k m then replace k v m else insert_new k v m

  abbrev pub remove : K → Map K V → Map K V
  remove k [] = []
  remove k ((j, w) ∷ m) =
      let rest = remove k m in if does (key.dec k j) then rest else (j, w) ∷ rest

  -- `retain` with a test on the key.
  abbrev pub retain : (K → Bool) → Map K V → Map K V
  retain keep [] = []
  retain keep ((j, w) ∷ m) = let rest = retain keep m in if keep j then (j, w) ∷ rest else rest

  lookup-replace :
      (j k : K) (v : V) (m : Map K V)
      → contains_key k m ≡ true
      → lookup j (replace k v m) ≡ (if does (key.dec j k) then some v else lookup j m)
  lookup-replace j k v [] h = cc
  lookup-replace j k v ((i, w) ∷ m) h = ground (arith, lookup-replace j k v m)

  lookup-insert_new :
      (j k : K) (v : V) (m : Map K V)
      → contains_key k m ≡ false
      → lookup j (insert_new k v m) ≡ (if does (key.dec j k) then some v else lookup j m)
  lookup-insert_new j k v [] h = refl
  lookup-insert_new j k v ((i, w) ∷ m) h = ground (arith, lookup-insert_new j k v m)

  pub lookup-insert :
      (j k : K) (v : V) (m : Map K V)
      → lookup j (insert k v m) ≡ (if does (key.dec j k) then some v else lookup j m)
  lookup-insert j k v m = elim (Bool-cases (contains_key k m)) [
    | inl old ↦ rw old (lookup-replace j k v m old)
    | inr new ↦ rw new (lookup-insert_new j k v m new)
  ]

  pub lookup-remove :
      (j k : K) (m : Map K V)
      → lookup j (remove k m) ≡ (if does (key.dec j k) then none else lookup j m)
  lookup-remove j k [] = ground arith
  lookup-remove j k ((i, w) ∷ m) = ground (arith, lookup-remove j k m)

  pub lookup-retain :
      (keep : K → Bool) (j : K) (m : Map K V)
      → lookup j (retain keep m) ≡ (if keep j then lookup j m else none)
  lookup-retain keep j [] = ground arith
  lookup-retain keep j ((i, w) ∷ m) = ground (arith, lookup-retain keep j m)

-- A set is a list in order.
abbrev pub Set : Type 0 → Type 0
Set K = List K

module _ {K : Type 0} ⦃key : Key K⦄ where
  abbrev pub contains : K → Set K → Bool
  contains k [] = false
  contains k (j ∷ m) = does (key.dec k j) || contains k m

  -- A new element goes before the first later one.
  abbrev pub add_new : K → Set K → Set K
  add_new k [] = k ∷ []
  add_new k (j ∷ m) = if key.before k j then k ∷ j ∷ m else j ∷ add_new k m

  abbrev pub add : K → Set K → Set K
  add k m = if contains k m then m else add_new k m

  abbrev pub discard : K → Set K → Set K
  discard k [] = []
  discard k (j ∷ m) = let rest = discard k m in if does (key.dec k j) then rest else j ∷ rest

  abbrev pub retain_set : (K → Bool) → Set K → Set K
  retain_set keep [] = []
  retain_set keep (j ∷ m) = let rest = retain_set keep m in if keep j then j ∷ rest else rest

  contains-add_new :
      (j k : K) (m : Set K) → contains j (add_new k m) ≡ (does (key.dec j k) || contains j m)
  contains-add_new j k [] = ground arith
  contains-add_new j k (i ∷ m) = ground (arith, contains-add_new j k m)

  pub contains-add :
      (j k : K) (m : Set K) → contains j (add k m) ≡ (does (key.dec j k) || contains j m)
  contains-add j k m = ground (arith, contains-add_new j k m)

  length-add_new : (k : K) (m : Set K) → length (add_new k m) ≡ length m + 1
  length-add_new k [] = omega arith
  length-add_new k (j ∷ m) = ground (arith, length-add_new k m)

  pub length-add :
      (k : K) (m : Set K) → length (add k m) ≡ (if contains k m then length m else length m + 1)
  length-add k m = ground (arith, length-add_new k m)

  pub contains-discard :
      (j k : K) (m : Set K)
      → contains j (discard k m) ≡ (if does (key.dec j k) then false else contains j m)
  contains-discard j k [] = ground arith
  contains-discard j k (i ∷ m) = ground (arith, contains-discard j k m)

  pub contains-retain_set :
      (keep : K → Bool) (j : K) (m : Set K)
      → contains j (retain_set keep m) ≡ (if keep j then contains j m else false)
  contains-retain_set keep j [] = ground arith
  contains-retain_set keep j (i ∷ m) = ground (arith, contains-retain_set keep j m)
