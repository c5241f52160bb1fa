-- ===== src/Rpc/Serve/Chunks.antt =====
-- The chunks that a handler of requests writes from bytes, or from a reader of its own.
use nodewatch_api.Base.{ℕ, ◌≤◌, ◌≡◌, sym, ◌∙◌, Option, none, ◌∷◌, length, subst}
use nodewatch_api.Rpc.Stream.{Stream, IsSteady, flat}
use nodewatch_api.Rpc.Encode.{Compression, Writer, bytes_reader}
use nodewatch_api.Rpc.Encode.Layout.{framed, wrote, encode_chunk_layout, stream_chunk-encode_chunk}
use nodewatch_api.Rpc.Serve.{write_raw_response_chunk, stream_response_chunk}
use nodewatch_api.Rpc.Method.Exchange.{bytes_reader-flat}

-- StreamResponseChunk of a reader that is told the right size writes the result code and the framed
-- bytes, in whatever pieces these come.
stream_response_chunk_lem :
    (code : ℕ) (r : Stream) (w : Writer) (comp : Option Compression)
    → IsSteady r
    → length (code ∷ framed comp (flat r)) ≤ w.room
    → stream_response_chunk code (length (flat r)) r w comp
      ≡ (none, wrote (code ∷ framed comp (flat r)) w)
unfolding stream_response_chunk
stream_response_chunk_lem code r w comp h fits =
    stream_chunk-encode_chunk code r w comp h fits ∙ encode_chunk_layout code r w comp h fits

-- WriteRawResponseChunk of the same bytes writes the same.
pub stream_response_chunk-write_raw_response_chunk :
    (code : ℕ) (r : Stream) (w : Writer) (comp : Option Compression)
    → IsSteady r
    → length (code ∷ framed comp (flat r)) ≤ w.room
    → stream_response_chunk code (length (flat r)) r w comp
      ≡ write_raw_response_chunk code (flat r) w comp
unfolding write_raw_response_chunk
stream_response_chunk-write_raw_response_chunk code r w comp h fits =
    let (steady, all) = bytes_reader-flat (flat r) in
    let raw =
      subst
        (λ b.
          length (code ∷ framed comp b) ≤ w.room
          → stream_response_chunk code (length b) (bytes_reader (flat r)) w comp
            ≡ (none, wrote (code ∷ framed comp b) w))
        all (stream_response_chunk_lem code (bytes_reader (flat r)) w comp steady) fits in
    stream_response_chunk_lem code r w comp h fits ∙ sym (unfold stream_response_chunk in raw)
