-- ===== src/Host.antt =====
-- crawler/p2p/host.go and crawler/rpc/methods: the client that asks peers for their status, and
-- answers their pings and their requests for its status and metadata.
pub mod Listeners
pub mod Status
pub mod Lookups
pub mod Refusal
use nodewatch_api.Base.{
  ℕ, Bool, true, false, Option, none, some, List, [], ◌∷◌, ltb, if◌then◌else◌, Result, ok, err,
  replicate,
}
use nodewatch_api.Base.Text.{Text, codes}
use nodewatch_api.Clock.{ForkChoice}
use nodewatch_api.Rpc.Stream.{Stream, RpcError, unexpected_result}
use nodewatch_api.Rpc.Reader.{BufLimitReader}
use nodewatch_api.Rpc.Encode.{Compression, Writer}
use nodewatch_api.Rpc.Respond.{
  Handler, Chunk, Outcome, is_error_code, success_code, server_err_code,
}
use nodewatch_api.Rpc.Method.{
  RpcMethod, Ssz, NewStreamFn, new_ssz_codec, ssz_input, run_request, read_err_msg, read_obj,
}

-- Status of github.com/protolambda/zrnt.
pub record ChainStatus : Type 0 where
  pub fork_digest : Text
  pub finalized_root : List ℕ
  pub finalized_epoch : ℕ
  pub head_root : List ℕ
  pub head_slot : ℕ

-- MetaData of the same package.
pub record ChainMetadata : Type 0 where
  pub seq_number : ℕ
  pub attnets : List ℕ

-- The fields of Client that its methods use.
pub record Client : Type 0 where
  pub local_status : ChainStatus
  pub local_metadata : ChainMetadata
  pub fork_choice : ForkChoice

abbrev pub zero_root : List ℕ
zero_root = replicate 32 0

-- newLocalStatus
abbrev pub new_local_status : Text → ChainStatus
new_local_status fork_digest = record {
  fork_digest = fork_digest;
  finalized_root = zero_root;
  finalized_epoch = 0;
  head_root = zero_root;
  head_slot = 0;
}

-- common.Status{}
abbrev pub zero_status : ChainStatus
zero_status = new_local_status (replicate 4 0)

-- newMetadata. `unmarshal_text` is AttnetBits.UnmarshalText, which changes the bits that it is called
-- on, and whose error is not looked at.
abbrev pub new_metadata : (List ℕ → List ℕ → List ℕ) → ChainMetadata
new_metadata unmarshal_text = record {
  seq_number = 0;
  attnets = unmarshal_text (replicate 8 255) (replicate 8 0);
}

-- newClient, without the listeners that it starts.
unfoldable pub new_client : (List ℕ → List ℕ → List ℕ) → ForkChoice → Client
new_client unmarshal_text fork_choice = record {
  local_status = new_local_status fork_choice.current_fork_digest;
  local_metadata = new_metadata unmarshal_text;
  fork_choice = fork_choice;
}

-- UpdateStatus
unfoldable pub update_status : ChainStatus → Client → Client
update_status new c =
    if ltb c.local_status.head_slot new.head_slot then record c { local_status = new } else c

-- StatusRPCv1, PingRPCv1 and the two MetaData methods, over the codecs and lengths of zrnt.
abbrev pub status_rpc_v1 : Ssz ChainStatus → ℕ → RpcMethod ChainStatus ChainStatus
status_rpc_v1 lib status_byte_len = record {
  protocol = codes "/eth2/beacon_chain/req/status/1/ssz";
  request_codec = new_ssz_codec lib status_byte_len status_byte_len;
  response_codec = new_ssz_codec lib status_byte_len status_byte_len;
  default_count = 1;
}

abbrev pub ping_rpc_v1 : Ssz ℕ → RpcMethod ℕ ℕ
ping_rpc_v1 lib = record {
  protocol = codes "/eth2/beacon_chain/req/ping/1/ssz_snappy";
  request_codec = new_ssz_codec lib 8 8;
  response_codec = new_ssz_codec lib 8 8;
  default_count = 1;
}

abbrev pub metadata_rpc_v2 : Ssz ChainMetadata → ℕ → RpcMethod ChainMetadata ChainMetadata
metadata_rpc_v2 lib metadata_byte_len = record {
  protocol = codes "/eth2/beacon_chain/req/metadata/2/ssz_snappy";
  request_codec = none;
  response_codec = new_ssz_codec lib metadata_byte_len metadata_byte_len;
  default_count = 1;
}

abbrev pub metadata_rpc_v2_no_snappy : Ssz ChainMetadata → ℕ → RpcMethod ChainMetadata ChainMetadata
metadata_rpc_v2_no_snappy lib metadata_byte_len = record {
  protocol = codes "/eth2/beacon_chain/req/metadata/2/ssz";
  request_codec = none;
  response_codec = new_ssz_codec lib metadata_byte_len metadata_byte_len;
  default_count = 1;
}

-- The variables of FetchStatus that its listener sets.
pub record Fetched : Type 0 where
  pub res_code : ℕ
  pub fetched_status : Option ChainStatus

-- What reading to the end of a decompressing reader gives, at most a number of bytes.
abbrev pub Inflate : Type 0
Inflate = Compression → ℕ → BufLimitReader → Result RpcError (List ℕ) × BufLimitReader

module _ (lib : Ssz ChainStatus) (status_byte_len : ℕ) (inflate : Inflate) (space : ℕ) where
  -- What FetchStatus does with a chunk. Nothing is written, and whether closing the compressed writer
  -- fails all the same is `close_fails`.
  unfoldable pub on_status : Bool → Handler Fetched
  on_status close_fails f c b =
      let f' = record f { res_code = c.result } in
      if is_error_code c.result
      then (let (msg, b') = read_err_msg space inflate c b in
          elim msg [
            | err e ↦ (record { error = some e; close_fails = close_fails }, f', b')
            | ok _ ↦ (record { error = none; close_fails = close_fails }, f', b')
          ])
      else if ltb success_code c.result
      then (record { error = some unexpected_result; close_fails = close_fails }, f', b)
      else (let (stat, b') = read_obj (status_rpc_v1 lib status_byte_len) c zero_status b in
          elim stat [
            | err e ↦ (record { error = some e; close_fails = close_fails }, f', b')
            | ok x ↦ (
              record { error = none; close_fails = close_fails },
              record f' { fetched_status = some x },
              b',
            )
          ])

  -- FetchStatus: the data, the error and the client.
  unfoldable pub fetch_status :
      ℕ
      → NewStreamFn
      → Option Compression
      → Bool
      → Client
      → Option ChainStatus × Option RpcError × Client
  unfolding on_status
  fetch_status memory new_stream comp close_fails c =
      let digest = c.fork_choice.current_fork_digest in
      let status = record c.local_status { fork_digest = digest } in
      let c' = record c { local_status = status } in
      let (e, f) =
        run_request memory new_stream (status_rpc_v1 lib status_byte_len) comp
          (ssz_input (some status)) 1 (λ f. (none, f)) (on_status close_fails)
          (record { res_code = server_err_code; fetched_status = none }) in
      (f.fetched_status, e, c')
