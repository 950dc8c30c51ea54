-- ===== src/Protocol/Reward.antt =====
-- `reward_for_supply` of crates/kcoin-protocol/src/ledger.rs.
use multi_node_blockchain_kc.Prelude.{
  ℕ, ◌*◌, ◌-◌, ◌/◌, Option, none, some, leb, ltb, if◌then◌else◌, length, get_elem?,
}
use multi_node_blockchain_kc.Protocol.Constants.{
  atoms_per_kcoin, max_supply_atoms, reward_band_atoms, rewards_kcoin,
}

-- `REWARDS_KCOIN[band]`, and the last band from there on.
unfoldable pub reward_kcoin : ℕ → ℕ
reward_kcoin band =
    let i = if ltb band (length rewards_kcoin) then band else length rewards_kcoin - 1 in
    elim (get_elem? rewards_kcoin i) [ none ↦ 0 | some r ↦ r ]

unfoldable pub reward_for_supply : ℕ → Option ℕ
reward_for_supply total_supply_atoms =
    let reward_atoms = reward_kcoin (total_supply_atoms / reward_band_atoms) * atoms_per_kcoin in
    let remaining = max_supply_atoms - total_supply_atoms in
    if leb max_supply_atoms total_supply_atoms
    then none
    else some (if ltb reward_atoms remaining then reward_atoms else remaining)
