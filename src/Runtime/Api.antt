-- ===== src/Runtime/Api.antt =====
-- `impl_runtime_apis!` of runtime/src/lib.rs: what a node asks of the runtime, and who answers.
use vantiy_name_registry.Base.{ℕ, ◌*◌, ◌≡◌, ap, Option, none, List, arith}
use vantiy_name_registry.Frame.Runtimes.{RuntimeVersion}
use vantiy_name_registry.Runtime.{version, slot_duration, minimum_period}

-- The types and the calls of the framework: `Executive`, the inherents, and the pallets. The functions
-- run on the storage, whose states are `Storage`; the keystore of the node is left out.
pub record Modules : Type 1 where
  pub Storage : Type 0
  pub Block : Type 0
  pub Header : Type 0
  pub Extrinsic : Type 0
  pub BlockHash : Type 0
  pub ApplyResult : Type 0
  pub OpaqueMetadata : Type 0
  pub InherentData : Type 0
  pub CheckInherentsResult : Type 0
  pub TransactionSource : Type 0
  pub TransactionValidity : Type 0
  pub AccountId : Type 0
  pub AuraId : Type 0
  pub GrandpaId : Type 0
  pub GrandpaAuthorityList : Type 0
  pub KeyTypeId : Type 0
  pub EquivocationProof : Type 0
  pub OpaqueKeyOwnershipProof : Type 0
  pub RuntimeDispatchInfo : Type 0
  pub FeeDetails : Type 0
  pub SlotDuration : Type 0
  pub execute_block : Block → Storage → Storage
  pub initialize_block : Header → Storage → Storage
  pub metadata : OpaqueMetadata
  pub apply_extrinsic : Extrinsic → Storage → ApplyResult × Storage
  pub finalize_block : Storage → Header × Storage
  pub create_extrinsics : InherentData → Storage → List Extrinsic
  pub check_extrinsics : InherentData → Block → Storage → CheckInherentsResult
  pub validate_transaction :
      TransactionSource → Extrinsic → BlockHash → Storage → TransactionValidity × Storage
  pub offchain_worker : Header → Storage → Storage
  pub aura_slot_duration : ℕ
  pub slot_duration_from_millis : ℕ → SlotDuration
  pub aura_authorities : Storage → List AuraId
  pub generate_keys : Option (List ℕ) → List ℕ
  pub decode_into_raw_public_keys : List ℕ → Option (List (List ℕ × KeyTypeId))
  pub grandpa_authorities : Storage → GrandpaAuthorityList
  pub current_set_id : Storage → ℕ
  pub system_account_nonce : AccountId → Storage → ℕ
  pub query_info : Extrinsic → ℕ → Storage → RuntimeDispatchInfo
  pub query_fee_details : Extrinsic → ℕ → Storage → FeeDetails

-- The methods of the interfaces, in their order.
pub record RuntimeApi (M : Modules) : Type 0 where
  pub version : RuntimeVersion
  pub execute_block : M.Block → M.Storage → M.Storage
  pub initialize_block : M.Header → M.Storage → M.Storage
  pub metadata : M.OpaqueMetadata
  pub apply_extrinsic : M.Extrinsic → M.Storage → M.ApplyResult × M.Storage
  pub finalize_block : M.Storage → M.Header × M.Storage
  pub inherent_extrinsics : M.InherentData → M.Storage → List M.Extrinsic
  pub check_inherents : M.Block → M.InherentData → M.Storage → M.CheckInherentsResult
  pub validate_transaction :
      M.TransactionSource
      → M.Extrinsic
      → M.BlockHash
      → M.Storage
      → M.TransactionValidity × M.Storage
  pub offchain_worker : M.Header → M.Storage → M.Storage
  pub slot_duration : M.SlotDuration
  pub authorities : M.Storage → List M.AuraId
  pub generate_session_keys : (seed : Option (List ℕ)) → List ℕ
  pub decode_session_keys : (encoded : List ℕ) → Option (List (List ℕ × M.KeyTypeId))
  pub grandpa_authorities : M.Storage → M.GrandpaAuthorityList
  pub current_set_id : M.Storage → ℕ
  pub submit_report_equivocation_unsigned_extrinsic :
      M.EquivocationProof → M.OpaqueKeyOwnershipProof → Option (Unit {0})
  pub generate_key_ownership_proof : (set_id : ℕ) → M.GrandpaId → Option M.OpaqueKeyOwnershipProof
  pub account_nonce : M.AccountId → M.Storage → ℕ
  pub query_info : M.Extrinsic → (len : ℕ) → M.Storage → M.RuntimeDispatchInfo
  pub query_fee_details : M.Extrinsic → (len : ℕ) → M.Storage → M.FeeDetails

abbrev pub runtime_api : (M : Modules) → RuntimeApi M
runtime_api M = record {
  version = version;
  execute_block = λ block s. M.execute_block block s;
  initialize_block = λ header s. M.initialize_block header s;
  metadata = M.metadata;
  apply_extrinsic = λ extrinsic s. M.apply_extrinsic extrinsic s;
  finalize_block = λ s. M.finalize_block s;
  inherent_extrinsics = λ inherents s. M.create_extrinsics inherents s;
  check_inherents = λ block inherents s. M.check_extrinsics inherents block s;
  validate_transaction = λ source tx block_hash s. M.validate_transaction source tx block_hash s;
  offchain_worker = λ header s. M.offchain_worker header s;
  slot_duration = M.slot_duration_from_millis M.aura_slot_duration;
  authorities = λ s. M.aura_authorities s;
  generate_session_keys = λ seed. M.generate_keys seed;
  decode_session_keys = λ encoded. M.decode_into_raw_public_keys encoded;
  grandpa_authorities = λ s. M.grandpa_authorities s;
  current_set_id = λ s. M.current_set_id s;
  submit_report_equivocation_unsigned_extrinsic = λ _ _. none;
  generate_key_ownership_proof = λ _ _. none;
  account_nonce = λ account s. M.system_account_nonce account s;
  query_info = λ uxt len s. M.query_info uxt len s;
  query_fee_details = λ uxt len s. M.query_fee_details uxt len s;
}

-- Where Aura takes twice the minimum period between blocks for a slot, the node is told the target
-- time of a block.
slot_duration-eq :
    (M : Modules)
    → M.aura_slot_duration ≡ minimum_period * 2
    → (runtime_api M).slot_duration ≡ M.slot_duration_from_millis slot_duration
slot_duration-eq M e = ap M.slot_duration_from_millis (omega (arith, e))
