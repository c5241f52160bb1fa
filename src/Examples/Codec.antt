-- ===== src/Examples/Codec.antt =====
-- Varints, chunks and responses of a few bytes.
use nodewatch_api.Base.{
  ℕ, suc, ◌+◌, ◌-◌, ◌≤◌, ◌≡◌, refl, ap, true, false, none, some, List, [], ◌∷◌, ◌++◌, length, arith,
  ok,
}
use nodewatch_api.Rpc.Stream.{Stream, Piece, eof, IsSteady, flat}
use nodewatch_api.Rpc.Reader.{BufLimitReader, read}
use nodewatch_api.Rpc.Reader.Limits.{content, read_lem, read_error_drops}
use nodewatch_api.Rpc.Reader.Bytes.{IsReady}
use nodewatch_api.Rpc.Varint.{
  put_uvarint, read_uvarint, Reads, read_uvarint-put_uvarint, length-put_uvarint,
}
use nodewatch_api.Rpc.Encode.{Writer, encode_chunk, stream_chunk}
use nodewatch_api.Rpc.Encode.Layout.{stream_chunk-encode_chunk}
use nodewatch_api.Rpc.Serve.{stream_response_chunk, write_raw_response_chunk}
use nodewatch_api.Rpc.Serve.Chunks.{stream_response_chunk-write_raw_response_chunk}
use nodewatch_api.Rpc.Respond.{Handler, respond}
use nodewatch_api.Rpc.Respond.Bounds.{respond_safe}
use nodewatch_api.Rpc.Respond.RoundTrip.{Sent, received, collect, respond_round_trip}

abbrev two_pieces : Stream
two_pieces =
    record { bytes = 172 ∷ 2 ∷ []; error = none }
    ∷ record { bytes = 7 ∷ 8 ∷ 9 ∷ []; error = none }
    ∷ []

two_pieces-IsSteady : IsSteady two_pieces
two_pieces-IsSteady = ((omega arith, refl), ((omega arith, refl), tt))

abbrev reader : BufLimitReader
reader = record { size = 16; pending = []; rd = two_pieces; n = 3; per_read = false }

read_lem_example :
    ((read 2 reader).0.filled ++ content (read 2 reader).1 ≡ 172 ∷ 2 ∷ 7 ∷ 8 ∷ 9 ∷ [])
    × ((read 2 reader).0.count ≤ 3)
    × (5 ≤ length (flat (read 2 reader).1.rd) + 3)
    × ((read 2 reader).1.n ≡ 3 - (read 2 reader).0.count)
read_lem_example = read_lem 2 reader

abbrev last_piece : Piece
last_piece = record { bytes = 1 ∷ 2 ∷ 3 ∷ []; error = some eof }

abbrev failing : BufLimitReader
failing = record { size = 16; pending = []; rd = last_piece ∷ []; n = 9; per_read = false }

bytes_dropped : (read 1 failing).0 ≡ record { count = 3; filled = []; error = some eof }
bytes_dropped =
    read_error_drops 1 failing last_piece [] eof refl refl refl (omega arith) (omega arith)
      (omega arith) (omega arith)

abbrev varint_reader : BufLimitReader
varint_reader = record { size = 16; pending = []; rd = two_pieces; n = 1; per_read = true }

varint-IsReady : IsReady (put_uvarint 300 ++ 7 ∷ 8 ∷ 9 ∷ []) varint_reader
unfolding put_uvarint
varint-IsReady = record { roomy = omega arith; steady = two_pieces-IsSteady; holds = refl }

read_uvarint-put_uvarint_example : Reads 300 (7 ∷ 8 ∷ 9 ∷ []) (read_uvarint varint_reader)
read_uvarint-put_uvarint_example =
    read_uvarint-put_uvarint 300 (7 ∷ 8 ∷ 9 ∷ []) varint_reader (omega arith) varint-IsReady refl
      refl

reads_300 : (read_uvarint varint_reader).0 ≡ ok 300
reads_300 =
    let found =
      read_uvarint-put_uvarint 300 (7 ∷ 8 ∷ 9 ∷ []) varint_reader (omega arith) varint-IsReady refl
        refl in
    ap (λ r. r.0) found.1

length-put_uvarint_example : (1 ≤ length (put_uvarint 300)) × (length (put_uvarint 300) ≤ 10)
length-put_uvarint_example = length-put_uvarint 300

abbrev writer : Writer
writer = record { out = []; room = 64 }

pieces_alike : stream_chunk 0 5 two_pieces writer none ≡ encode_chunk 0 two_pieces writer none
unfolding put_uvarint
pieces_alike = stream_chunk-encode_chunk 0 two_pieces writer none two_pieces-IsSteady (omega arith)

pieces_streamed :
    stream_response_chunk 0 5 two_pieces writer none
    ≡ write_raw_response_chunk 0 (flat two_pieces) writer none
unfolding put_uvarint
pieces_streamed =
    stream_response_chunk-write_raw_response_chunk 0 two_pieces writer none two_pieces-IsSteady
      (omega arith)

-- A response of a success and an error chunk.
abbrev two_chunks : List Sent
two_chunks = record { code = 0; payload = 5 ∷ 6 ∷ [] } ∷ record { code = 1; payload = 9 ∷ [] } ∷ []

abbrev response : Stream
response =
    record { bytes = 0 ∷ 2 ∷ 5 ∷ []; error = none }
    ∷ record { bytes = 6 ∷ 1 ∷ 1 ∷ 9 ∷ []; error = none }
    ∷ []

respond_round_trip_example :
    let (e, all, _) = respond (collect 512) 1024 none 2 [] response in
    (e ≡ none) × (all ≡ received 0 two_chunks)
unfolding put_uvarint
respond_round_trip_example =
    respond_round_trip 512 1024 2 two_chunks response (omega arith) (omega arith)
      (
        (omega arith, omega arith, λ h. omega arith),
        ((omega arith, omega arith, λ h. omega arith), tt),
      )
      (omega arith) ((omega arith, refl), ((omega arith, refl), tt)) refl

-- A handler that counts its chunks.
abbrev counting : Handler ℕ
counting s c b = (record { error = none; close_fails = false }, suc s, b)

respond_safe_example : (k : ℕ) × (k ≤ 2) × (k ≡ (respond counting 1024 none 2 0 response).1)
respond_safe_example =
    respond_safe counting 1024 none (λ k s. k ≡ s) (λ s c b h _. ap suc h) 2 0 response refl
