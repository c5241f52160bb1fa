-- ===== src/Config/Networks.antt =====
-- cmd/network/goerli.go and holesky.go: the shape of the specifications of the two networks, with the
-- fields that the files set and the epoch of Electra, which neither of them sets.
pub mod Goerli
pub mod Holesky
pub mod Schedules
pub mod Testnets
use nodewatch_api.Base.{ℕ, ◌≡◌, List}
use nodewatch_api.Base.Text.{Text}
use nodewatch_api.Clock.{ForkSchedule}

pub record Phase0Preset : Type 0 where
  pub max_committees_per_slot : ℕ
  pub target_committee_size : ℕ
  pub max_validators_per_committee : ℕ
  pub shuffle_round_count : ℕ
  pub hysteresis_quotient : ℕ
  pub hysteresis_downward_multiplier : ℕ
  pub hysteresis_upward_multiplier : ℕ
  pub min_deposit_amount : ℕ
  pub max_effective_balance : ℕ
  pub effective_balance_increment : ℕ
  pub min_attestation_inclusion_delay : ℕ
  pub slots_per_epoch : ℕ
  pub min_seed_lookahead : ℕ
  pub max_seed_lookahead : ℕ
  pub epochs_per_eth1_voting_period : ℕ
  pub slots_per_historical_root : ℕ
  pub min_epochs_to_inactivity_penalty : ℕ
  pub epochs_per_historical_vector : ℕ
  pub epochs_per_slashings_vector : ℕ
  pub historical_roots_limit : ℕ
  pub validator_registry_limit : ℕ
  pub base_reward_factor : ℕ
  pub proportional_slashing_multiplier : ℕ
  pub whistleblower_reward_quotient : ℕ
  pub proposer_reward_quotient : ℕ
  pub inactivity_penalty_quotient : ℕ
  pub min_slashing_penalty_quotient : ℕ
  pub max_proposer_slashings : ℕ
  pub max_attester_slashings : ℕ
  pub max_attestations : ℕ
  pub max_deposits : ℕ
  pub max_voluntary_exits : ℕ

pub record AltairPreset : Type 0 where
  pub inactivity_penalty_quotient_altair : ℕ
  pub min_slashing_penalty_quotient_altair : ℕ
  pub proportional_slashing_multiplier_altair : ℕ
  pub sync_committee_size : ℕ
  pub epochs_per_sync_committee_period : ℕ
  pub min_sync_committee_participants : ℕ

pub record BellatrixPreset : Type 0 where
  pub inactivity_penalty_quotient_bellatrix : ℕ
  pub min_slashing_penalty_quotient_bellatrix : ℕ
  pub proportional_slashing_multiplier_bellatrix : ℕ
  pub max_bytes_per_transaction : ℕ
  pub max_transactions_per_payload : ℕ
  pub bytes_per_logs_bloom : ℕ
  pub max_extra_data_bytes : ℕ

pub record CapellaPreset : Type 0 where
  pub max_validators_per_withdrawals_sweep : ℕ
  pub max_bls_to_execution_changes : ℕ
  pub max_withdrawals_per_payload : ℕ

pub record DenebPreset : Type 0 where
  pub field_elements_per_blob : ℕ
  pub max_blob_commitments_per_block : ℕ
  pub kzg_commitment_inclusion_proof_depth : ℕ

pub record ElectraPreset : Type 0 where
  pub min_activation_balance : ℕ
  pub max_effective_balance_electra : ℕ
  pub pending_deposits_limit : ℕ
  pub pending_partial_withdrawals_limit : ℕ
  pub pending_consolidations_limit : ℕ
  pub min_slashing_penalty_quotient_electra : ℕ
  pub whistleblower_reward_quotient_electra : ℕ
  pub max_attester_slashings_electra : ℕ
  pub max_attestations_electra : ℕ
  pub max_consolidation_requests_per_payload : ℕ
  pub max_deposit_requests_per_payload : ℕ
  pub max_withdrawal_requests_per_payload : ℕ
  pub max_pending_partials_per_withdrawals_sweep : ℕ
  pub max_pending_deposits_per_epoch : ℕ

-- common.Config. Versions and addresses are lists of bytes.
pub record NetworkConfig : Type 0 where
  pub preset_base : Text
  pub min_genesis_active_validator_count : ℕ
  pub min_genesis_time : ℕ
  pub genesis_fork_version : List ℕ
  pub genesis_delay : ℕ
  pub altair_fork_version : List ℕ
  pub altair_fork_epoch : ℕ
  pub bellatrix_fork_version : List ℕ
  pub bellatrix_fork_epoch : ℕ
  pub capella_fork_version : List ℕ
  pub capella_fork_epoch : ℕ
  pub deneb_fork_version : List ℕ
  pub deneb_fork_epoch : ℕ
  pub electra_fork_epoch : ℕ
  pub terminal_total_difficulty : ℕ
  pub terminal_block_hash : List ℕ
  pub terminal_block_hash_activation_epoch : ℕ
  pub seconds_per_slot : ℕ
  pub seconds_per_eth1_block : ℕ
  pub min_validator_withdrawability_delay : ℕ
  pub shard_committee_period : ℕ
  pub eth1_follow_distance : ℕ
  pub inactivity_score_bias : ℕ
  pub inactivity_score_recovery_rate : ℕ
  pub ejection_balance : ℕ
  pub min_per_epoch_churn_limit : ℕ
  pub churn_limit_quotient : ℕ
  pub proposer_score_boost : ℕ
  pub deposit_chain_id : ℕ
  pub deposit_network_id : ℕ
  pub deposit_contract_address : List ℕ

-- common.Spec, without the execution engine, which is nil in both.
pub record Spec : Type 0 where
  pub phase0_preset : Phase0Preset
  pub altair_preset : AltairPreset
  pub bellatrix_preset : BellatrixPreset
  pub capella_preset : CapellaPreset
  pub deneb_preset : DenebPreset
  pub electra_preset : ElectraPreset
  pub config : NetworkConfig

-- A schedule has the epochs of a specification.
abbrev pub HasEpochs : ForkSchedule → Spec → Type 0
HasEpochs s spec =
    (s.altair.fork_epoch ≡ spec.config.altair_fork_epoch)
    × (s.bellatrix.fork_epoch ≡ spec.config.bellatrix_fork_epoch)
    × (s.capella.fork_epoch ≡ spec.config.capella_fork_epoch)
    × (s.deneb.fork_epoch ≡ spec.config.deneb_fork_epoch)
    × (s.electra.fork_epoch ≡ spec.config.electra_fork_epoch)
