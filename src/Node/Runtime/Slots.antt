-- ===== src/Node/Runtime/Slots.antt =====
-- The signer slots of crates/kcoin-node/src/runtime.rs: their text tells the height, the round and
-- the kind of a message.
use multi_node_blockchain_kc.Prelude.{
  ℕ, ◌≡◌, ◌≤◌, refl, sym, ◌∙◌, ap, [], ◌∷◌, ◌++◌, some, arith, u64_max, u32_max,
}
use multi_node_blockchain_kc.Consensus.Types.{SignableMessage, Height, round_of}
use multi_node_blockchain_kc.Consensus.State.{of_signable}
use multi_node_blockchain_kc.Node.Texts.{Text, to_string, parse_u64, first_part}
use multi_node_blockchain_kc.Node.Texts.Decimal.{parse_u64-to_string, first_part-to_string}
use multi_node_blockchain_kc.Node.Runtime.Rules.{signer_slot, slot_text, kind_name, proposal_name}

-- The height of a message.
abbrev pub height_of : SignableMessage → Height
height_of (SignableMessage.proposal p) = p.height
height_of (SignableMessage.vote v) = v.height

append-cancel : (xs ys zs : Text) → xs ++ ys ≡ xs ++ zs → ys ≡ zs
append-cancel [] ys zs e = e
append-cancel (x ∷ xs) ys zs e = append-cancel xs ys zs cc

-- A number before a slash and what follows it are both determined.
path-injective :
    (m n : ℕ) (xs ys : Text)
    → m ≤ u64_max
    → n ≤ u64_max
    → to_string m ++ b'/' ∷ xs ≡ to_string n ++ b'/' ∷ ys
    → (m ≡ n) × (xs ≡ ys)
path-injective m n xs ys fits_m fits_n e =
    let texts : to_string m ≡ to_string n =
      sym (first_part-to_string m xs) ∙ ap (first_part b'/') e ∙ first_part-to_string n ys in
    let numbers : some m ≡ some n =
      sym (parse_u64-to_string m fits_m) ∙ ap parse_u64 texts ∙ parse_u64-to_string n fits_n in
    let same : to_string n ++ b'/' ∷ xs ≡ to_string n ++ b'/' ∷ ys =
      ap (λ t. t ++ b'/' ∷ xs) (sym texts) ∙ e in
    (cc, let rests = append-cancel (to_string n) (b'/' ∷ xs) (b'/' ∷ ys) same in cc)

abbrev name_of : SignableMessage → Text
name_of (SignableMessage.proposal p) = proposal_name
name_of (SignableMessage.vote v) = kind_name v.kind

signer_slot_lem :
    (m : SignableMessage) → signer_slot m ≡ slot_text (height_of m) (round_of m) (name_of m)
unfolding signer_slot
signer_slot_lem (SignableMessage.proposal p) = refl
signer_slot_lem (SignableMessage.vote v) = refl

key-of_name :
    (a b : SignableMessage)
    → round_of a ≡ round_of b
    → name_of a ≡ name_of b
    → of_signable a ≡ of_signable b
key-of_name (SignableMessage.proposal a) (SignableMessage.proposal b) r e = cc
key-of_name (SignableMessage.proposal a) (SignableMessage.vote b) r e = ground arith
key-of_name (SignableMessage.vote a) (SignableMessage.proposal b) r e = ground arith
key-of_name (SignableMessage.vote a) (SignableMessage.vote b) r e = ground arith

-- Two messages have one slot only if they have one height and are proposals of one round or votes
-- of one round and kind, if their heights fit 64 bits and their rounds 32.
pub signer_slot-injective :
    (a b : SignableMessage)
    → height_of a ≤ u64_max
    → height_of b ≤ u64_max
    → round_of a ≤ u32_max
    → round_of b ≤ u32_max
    → signer_slot a ≡ signer_slot b
    → (height_of a ≡ height_of b) × (of_signable a ≡ of_signable b)
unfolding slot_text
signer_slot-injective a b fits_a fits_b small_a small_b e =
    let (heights, rests) =
      path-injective (height_of a) (height_of b) _ _ fits_a fits_b
        (sym (signer_slot_lem a) ∙ e ∙ signer_slot_lem b) in
    let (rounds, names) =
      path-injective (round_of a) (round_of b) (name_of a) (name_of b) (omega (arith, small_a))
        (omega (arith, small_b)) rests in
    (heights, key-of_name a b rounds names)

-- The store files a message under its height.
pub signer_slot-height :
    (m : SignableMessage)
    → height_of m ≤ u64_max
    → parse_u64 (first_part b'/' (signer_slot m)) ≡ some (height_of m)
unfolding slot_text
signer_slot-height m fits =
    ap (λ t. parse_u64 (first_part b'/' t)) (signer_slot_lem m)
    ∙ ap parse_u64 (first_part-to_string (height_of m) _)
    ∙ parse_u64-to_string (height_of m) fits
