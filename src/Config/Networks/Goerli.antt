-- ===== src/Config/Networks/Goerli.antt =====
-- cmd/network/goerli.go: the specification of goerli. What it leaves out is Go's zero value.
use nodewatch_api.Base.{◌-◌, ◌^◌, [], ◌∷◌, replicate}
use nodewatch_api.Base.Text.{codes}
use nodewatch_api.Config.Networks.{Spec}

abbrev pub goerli : Spec
goerli = record {
  phase0_preset = record {
    max_committees_per_slot = 64;
    target_committee_size = 128;
    max_validators_per_committee = 2048;
    shuffle_round_count = 90;
    hysteresis_quotient = 4;
    hysteresis_downward_multiplier = 1;
    hysteresis_upward_multiplier = 5;
    min_deposit_amount = 1000000000;
    max_effective_balance = 32000000000;
    effective_balance_increment = 1000000000;
    min_attestation_inclusion_delay = 1;
    slots_per_epoch = 32;
    min_seed_lookahead = 1;
    max_seed_lookahead = 4;
    epochs_per_eth1_voting_period = 64;
    slots_per_historical_root = 8192;
    min_epochs_to_inactivity_penalty = 4;
    epochs_per_historical_vector = 65536;
    epochs_per_slashings_vector = 8192;
    historical_roots_limit = 16777216;
    validator_registry_limit = 1099511627776;
    base_reward_factor = 64;
    proportional_slashing_multiplier = 1;
    whistleblower_reward_quotient = 512;
    proposer_reward_quotient = 8;
    inactivity_penalty_quotient = 67108864;
    min_slashing_penalty_quotient = 128;
    max_proposer_slashings = 16;
    max_attester_slashings = 2;
    max_attestations = 128;
    max_deposits = 16;
    max_voluntary_exits = 16;
  };
  altair_preset = record {
    inactivity_penalty_quotient_altair = 50331648;
    min_slashing_penalty_quotient_altair = 64;
    proportional_slashing_multiplier_altair = 2;
    sync_committee_size = 512;
    epochs_per_sync_committee_period = 256;
    min_sync_committee_participants = 1;
  };
  bellatrix_preset = record {
    inactivity_penalty_quotient_bellatrix = 16777216;
    min_slashing_penalty_quotient_bellatrix = 32;
    proportional_slashing_multiplier_bellatrix = 3;
    max_bytes_per_transaction = 1073741824;
    max_transactions_per_payload = 1048576;
    bytes_per_logs_bloom = 256;
    max_extra_data_bytes = 32;
  };
  capella_preset = record {
    max_validators_per_withdrawals_sweep = 16384;
    max_bls_to_execution_changes = 16;
    max_withdrawals_per_payload = 16;
  };
  deneb_preset = record {
    field_elements_per_blob = 4096;
    max_blob_commitments_per_block = 4096;
    kzg_commitment_inclusion_proof_depth = 17;
  };
  electra_preset = record {
    min_activation_balance = 123;
    max_effective_balance_electra = 456;
    pending_deposits_limit = 0;
    pending_partial_withdrawals_limit = 0;
    pending_consolidations_limit = 0;
    min_slashing_penalty_quotient_electra = 0;
    whistleblower_reward_quotient_electra = 0;
    max_attester_slashings_electra = 0;
    max_attestations_electra = 0;
    max_consolidation_requests_per_payload = 0;
    max_deposit_requests_per_payload = 0;
    max_withdrawal_requests_per_payload = 0;
    max_pending_partials_per_withdrawals_sweep = 0;
    max_pending_deposits_per_epoch = 0;
  };
  config = record {
    preset_base = codes "mainnet";
    min_genesis_active_validator_count = 2 ^ 14;
    min_genesis_time = 1614588812;
    genesis_fork_version = 0 ∷ 0 ∷ 16 ∷ 32 ∷ [];
    genesis_delay = 1919188;
    altair_fork_version = 1 ∷ 0 ∷ 16 ∷ 32 ∷ [];
    altair_fork_epoch = 36660;
    bellatrix_fork_version = 2 ∷ 0 ∷ 16 ∷ 32 ∷ [];
    bellatrix_fork_epoch = 112260;
    capella_fork_version = 3 ∷ 0 ∷ 16 ∷ 32 ∷ [];
    capella_fork_epoch = 162304;
    deneb_fork_version = 4 ∷ 0 ∷ 16 ∷ 32 ∷ [];
    deneb_fork_epoch = 500000;
    electra_fork_epoch = 0;
    terminal_total_difficulty = 10790000;
    terminal_block_hash = replicate 32 0;
    terminal_block_hash_activation_epoch = 2 ^ 64 - 1;
    seconds_per_slot = 12;
    seconds_per_eth1_block = 14;
    min_validator_withdrawability_delay = 256;
    shard_committee_period = 256;
    eth1_follow_distance = 2048;
    inactivity_score_bias = 4;
    inactivity_score_recovery_rate = 16;
    ejection_balance = 16000000000;
    min_per_epoch_churn_limit = 4;
    churn_limit_quotient = 2 ^ 16;
    proposer_score_boost = 70;
    deposit_chain_id = 1;
    deposit_network_id = 1;
    deposit_contract_address =
        0 ∷ 0 ∷ 0 ∷ 0 ∷ 33 ∷ 154 ∷ 181 ∷ 64 ∷ 53 ∷ 108 ∷ 187 ∷ 131 ∷ 156 ∷ 190 ∷ 5 ∷ 48 ∷ 61 ∷ 119
        ∷ 5 ∷ 250 ∷ [];
  };
}
