-- ===== src/Host/Listeners.antt =====
-- The listeners of crawler/p2p/host.go: how the client answers pings, status and metadata requests.
use nodewatch_api.Base.{ℕ, none, some, List, [], ◌∷◌, ok, err, replicate}
use nodewatch_api.Base.Text.{Text, codes}
use nodewatch_api.Rpc.Stream.{Stream}
use nodewatch_api.Rpc.Encode.{Compression, Writer}
use nodewatch_api.Rpc.Respond.{success_code, invalid_req_code}
use nodewatch_api.Rpc.Serve.{write_error_chunk}
use nodewatch_api.Rpc.Method.{Ssz, make_stream_handler, read_request, write_response_chunk}
use nodewatch_api.Host.{
  ChainStatus, ChainMetadata, Client, zero_status, update_status, status_rpc_v1, ping_rpc_v1,
  metadata_rpc_v2,
}

-- Each listener answers with snappy, under a protocol that it names once. What it keeps between streams
-- is the maximum of its stream handler, which stands last in its arguments' and its results' lists.

-- ServeBeaconPing: the ping is sent back. Failures to answer are logged only.
unfoldable pub serve_beacon_ping : Ssz ℕ → Compression → Stream → Writer → ℕ → Writer × ℕ
serve_beacon_ping lib snappy stream w max_size =
    let m = ping_rpc_v1 lib in
    let comp = some snappy in
    let (r, max_size') = make_stream_handler m comp max_size stream in
    elim (read_request m comp r 0) [
      | err e ↦ (
        (write_error_chunk invalid_req_code (codes "could not parse ping request") w comp).1,
        max_size',
      )
      | ok ping ↦ ((write_response_chunk m success_code (some ping) w comp).1, max_size')
    ]

-- ServeBeaconStatus: the client's status is sent, and then updated if that succeeded.
unfoldable pub serve_beacon_status :
    Ssz ChainStatus → ℕ → Compression → Client → Stream → Writer → ℕ → Client × Writer × ℕ
unfolding update_status
serve_beacon_status lib status_byte_len snappy c stream w max_size =
    let m = status_rpc_v1 lib status_byte_len in
    let comp = some snappy in
    let (r, max_size') = make_stream_handler m comp max_size stream in
    elim (read_request m comp r zero_status) [
      | err e ↦ (
        c,
        (write_error_chunk invalid_req_code (codes "could not parse status request") w comp).1,
        max_size',
      )
      | ok req_status ↦
          let (failed, w') = write_response_chunk m success_code (some c.local_status) w comp in
          elim failed [
            | some e ↦ (c, w', max_size')
            | none ↦ (update_status req_status c, w', max_size')
          ]
    ]

-- ServeBeaconMetadata
unfoldable pub serve_beacon_metadata :
    Ssz ChainMetadata → ℕ → Compression → Client → Stream → Writer → ℕ → Writer × ℕ
serve_beacon_metadata lib metadata_byte_len snappy c stream w max_size =
    let m = metadata_rpc_v2 lib metadata_byte_len in
    let comp = some snappy in
    let dest : ChainMetadata = record { seq_number = 0; attnets = replicate 8 0 } in
    let (r, max_size') = make_stream_handler m comp max_size stream in
    elim (read_request m comp r dest) [
      | err e ↦ (
        (write_error_chunk invalid_req_code (codes "could not parse status request") w comp).1,
        max_size',
      )
      | ok _ ↦ ((write_response_chunk m success_code (some c.local_metadata) w comp).1, max_size')
    ]

-- The protocols for which newClient sets a stream handler.
abbrev pub served_protocols : Ssz ChainStatus → ℕ → Ssz ℕ → Ssz ChainMetadata → ℕ → List Text
served_protocols status status_byte_len ping metadata metadata_byte_len =
    (metadata_rpc_v2 metadata metadata_byte_len).protocol
    ∷ (ping_rpc_v1 ping).protocol
    ∷ (status_rpc_v1 status status_byte_len).protocol
    ∷ []
