-- ===== src/Rpc/Encode.antt =====
-- crawler/rpc/request/encode.go and the interface of compression.go: how requests and chunks are
-- written.
pub mod Layout
use nodewatch_api.Base.{
  ℕ, zero, suc, ◌+◌, ◌-◌, ◌^◌, Bool, true, false, Option, none, some, List, [], ◌∷◌, ◌++◌, length,
  take, ltb, leb, ◌==◌, if◌then◌else◌, Result, ok, err,
}
use nodewatch_api.Base.Int.{ℤ, pos, negsuc}
use nodewatch_api.Base.Text.{Text, codes}
use nodewatch_api.Rpc.Stream.{Stream, Piece, RpcError, eof, io_failed, too_large}
use nodewatch_api.Rpc.Varint.{put_uvarint}

-- The Compression interface. A compressing writer passes some bytes on as it is written to, and the
-- rest when it is closed: `compress` gives both parts for a payload.
pub record Compression : Type 0 where
  pub name : Text
  pub max_encoded_len : ℕ → Result RpcError ℕ
  pub compress : List ℕ → List ℕ × List ℕ

-- SnappyCompression, over the functions of github.com/golang/snappy. A uint64 with its top bit set
-- is refused, and so is a length for which snappy.MaxEncodedLen is negative.
pub snappy_compression : (ℕ → ℤ) → (List ℕ → List ℕ × List ℕ) → Compression
snappy_compression snappy_max_encoded_len snappy_write = record {
  name = codes "snappy";
  max_encoded_len = λ msg_len.
      if leb (2 ^ 63) msg_len
      then err too_large
      else elim (snappy_max_encoded_len msg_len) [ negsuc _ ↦ err too_large | pos m ↦ ok m ];
  compress = snappy_write;
}

-- The maximum for the content of a message: with a compression it is that of the encoded length.
unfoldable pub adjusted : Option Compression → ℕ → Result RpcError ℕ
adjusted none size = ok size
adjusted (some c) size = c.max_encoded_len size

-- An io.Writer that takes `room` more bytes, and fails on any beyond.
pub record Writer : Type 0 where
  pub out : List ℕ
  pub room : ℕ

-- `w.Write(p)`: an error comes with a short write only.
unfoldable pub write : List ℕ → Writer → Option RpcError × Writer
write p w =
    if leb (length p) w.room
    then (none, record { out = w.out ++ p; room = w.room - length p })
    else (some io_failed, record { out = w.out ++ take w.room p; room = 0 })

-- io.Copy from a reader into a buffer: all its bytes up to its end, or to its first other error.
unfoldable pub read_all : Stream → List ℕ × Option RpcError
read_all [] = ([], none)
read_all (p ∷ ps) =
    let rest = read_all ps in
    elim p.error [
      | none ↦ (p.bytes ++ rest.0, rest.1)
      | some eof ↦ (p.bytes, none)
      | some e ↦ (p.bytes, some e)
    ]

-- io.Copy from a reader to a writer.
unfoldable pub copy : Stream → Writer → Option RpcError × Writer
copy [] w = (none, w)
copy (p ∷ ps) w =
    let (failed, w') = write p.bytes w in
    let more = copy ps w' in
    elim failed [
      | some e ↦ (some e, w')
      | none ↦ elim p.error [ none ↦ more | some eof ↦ (none, w') | some e ↦ (some e, w') ]
    ]

-- The bytes `p` through a compressing writer that is closed behind them. A failure of Close is
-- ignored.
compressed_write : Compression → List ℕ → Writer → Option RpcError × Writer
compressed_write c p w =
    let (failed, w') = write (c.compress p).0 w in
    elim failed [ some e ↦ (some e, w') | none ↦ (none, (write (c.compress p).1 w').1) ]

-- EncodeHeaderAndPayload: the payload is read whole, and its size goes in front.
pub encode_header_and_payload : Stream → Writer → Option Compression → Option RpcError × Writer
encode_header_and_payload r w comp =
    let (payload, failed) = read_all r in
    let (failed_size, w') = write (put_uvarint (length payload)) w in
    elim failed [
      | some e ↦ (some e, w)
      | none ↦ elim failed_size [
        | some e ↦ (some e, w')
        | none ↦ elim comp [ some c ↦ compressed_write c payload w' | none ↦ write payload w' ]
      ]
    ]

-- StreamHeaderAndPayload: the size is given. A compressing writer gets what io.Copy reads before a
-- failure too.
pub stream_header_and_payload : ℕ → Stream → Writer → Option Compression → Option RpcError × Writer
stream_header_and_payload size r w comp =
    let (failed_size, w') = write (put_uvarint size) w in
    elim failed_size [
      | some e ↦ (some e, w')
      | none ↦ elim comp [
        | none ↦ copy r w'
        | some c ↦
            let (failed, w2) = compressed_write c (read_all r).0 w' in
            elim failed [ some e ↦ (some e, w2) | none ↦ ((read_all r).1, w2) ]
      ]
    ]

-- EncodeResult
encode_result : ℕ → Writer → Option RpcError × Writer
encode_result result w = write (result ∷ []) w

-- EncodeChunk
pub encode_chunk : ℕ → Stream → Writer → Option Compression → Option RpcError × Writer
encode_chunk result r w comp =
    let (failed, w') = encode_result result w in
    elim failed [ some e ↦ (some e, w') | none ↦ encode_header_and_payload r w' comp ]

-- StreamChunk
pub stream_chunk : ℕ → ℕ → Stream → Writer → Option Compression → Option RpcError × Writer
stream_chunk result size r w comp =
    let (failed, w') = encode_result result w in
    elim failed [ some e ↦ (some e, w') | none ↦ stream_header_and_payload size r w' comp ]

-- A reader over bytes that are at hand, bytes.NewReader and bytes.Buffer.
abbrev pub bytes_reader : List ℕ → Stream
bytes_reader [] = []
bytes_reader (c ∷ cs) = record { bytes = c ∷ cs; error = none } ∷ []
