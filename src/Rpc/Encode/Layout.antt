-- ===== src/Rpc/Encode/Layout.antt =====
-- What the encoders put on the wire.
use nodewatch_api.Base.{
  ℕ, suc, ◌-◌, ◌≤◌, ◌≡◌, refl, Option, none, some, List, [], ◌∷◌, ◌++◌, length, length-append,
  append_assoc, append-nil, arith, le→leb,
}
use nodewatch_api.Rpc.Stream.{Stream, flat, IsSteady}
use nodewatch_api.Rpc.Varint.{put_uvarint}
use nodewatch_api.Rpc.Encode.{
  Compression, Writer, write, read_all, copy, compressed_write, encode_header_and_payload,
  stream_header_and_payload, encode_result, encode_chunk, stream_chunk,
}

-- A writer after `p` was added to it.
abbrev pub wrote : List ℕ → Writer → Writer
wrote p w = record { out = w.out ++ p; room = w.room - length p }

pub write_fits : (p : List ℕ) (w : Writer) → length p ≤ w.room → write p w ≡ (none, wrote p w)
unfolding write
write_fits p w h = rw (le→leb _ _ h)

pub read_all_steady : (r : Stream) → IsSteady r → read_all r ≡ (flat r, none)
unfolding read_all
read_all_steady [] h = refl
read_all_steady (p ∷ ps) h = ground (arith, read_all_steady ps h.1)

wrote-wrote : (p q : List ℕ) (w : Writer) → wrote q (wrote p w) ≡ wrote (p ++ q) w
wrote-wrote p q w = ground (arith, append_assoc w.out p q, length-append p q)

wrote_nil : (w : Writer) → wrote [] w ≡ w
wrote_nil w = ground (arith, append-nil w.out)

pub copy_steady :
    (r : Stream) (w : Writer)
    → IsSteady r
    → length (flat r) ≤ w.room
    → copy r w ≡ (none, wrote (flat r) w)
unfolding copy
copy_steady [] w h fits = ground (arith, wrote_nil w)
copy_steady (p ∷ ps) w h fits = ground (
  arith,
  length-append p.bytes (flat ps),
  write_fits p.bytes w,
  copy_steady ps (wrote p.bytes w) h.1,
  wrote-wrote p.bytes (flat ps) w,
)

-- What goes on the wire for a payload: with no compression its size as a varint and the payload, and
-- else its size and what the compressor makes of it.
abbrev pub framed : Option Compression → List ℕ → List ℕ
framed none payload = put_uvarint (length payload) ++ payload
framed (some c) payload =
    put_uvarint (length payload) ++ ((c.compress payload).0 ++ (c.compress payload).1)

compressed_write_fits :
    (c : Compression) (p : List ℕ) (w : Writer)
    → length ((c.compress p).0 ++ (c.compress p).1) ≤ w.room
    → compressed_write c p w ≡ (none, wrote ((c.compress p).0 ++ (c.compress p).1) w)
unfolding compressed_write
compressed_write_fits c p w h =
    let (now, later) = c.compress p in
    ground (
      arith,
      length-append now later,
      write_fits now w,
      write_fits later (wrote now w),
      wrote-wrote now later w,
    )

pub encode_header_and_payload-framed :
    (r : Stream) (w : Writer) (comp : Option Compression)
    → IsSteady r
    → length (framed comp (flat r)) ≤ w.room
    → encode_header_and_payload r w comp ≡ (none, wrote (framed comp (flat r)) w)
unfolding encode_header_and_payload
encode_header_and_payload-framed r w none h fits = ground (
  arith,
  read_all_steady r h,
  length-append (put_uvarint (length (flat r))) (flat r),
  write_fits (put_uvarint (length (flat r))) w,
  write_fits (flat r) (wrote (put_uvarint (length (flat r))) w),
  wrote-wrote (put_uvarint (length (flat r))) (flat r) w,
)
encode_header_and_payload-framed r w (some c) h fits =
    let size = put_uvarint (length (flat r)) in
    let parts = c.compress (flat r) in
    ground (
      arith,
      read_all_steady r h,
      append_assoc size parts.0 parts.1,
      length-append size (parts.0 ++ parts.1),
      write_fits size w,
      compressed_write_fits c (flat r) (wrote size w),
      wrote-wrote size (parts.0 ++ parts.1) w,
    )

pub stream_header_and_payload-framed :
    (r : Stream) (w : Writer) (comp : Option Compression)
    → IsSteady r
    → length (framed comp (flat r)) ≤ w.room
    → stream_header_and_payload (length (flat r)) r w comp ≡ (none, wrote (framed comp (flat r)) w)
unfolding stream_header_and_payload
stream_header_and_payload-framed r w none h fits =
    let size = put_uvarint (length (flat r)) in
    ground (
      arith,
      length-append size (flat r),
      write_fits size w,
      copy_steady r (wrote size w) h,
      wrote-wrote size (flat r) w,
    )
stream_header_and_payload-framed r w (some c) h fits =
    let size = put_uvarint (length (flat r)) in
    let parts = c.compress (flat r) in
    ground (
      arith,
      read_all_steady r h,
      append_assoc size parts.0 parts.1,
      length-append size (parts.0 ++ parts.1),
      write_fits size w,
      compressed_write_fits c (flat r) (wrote size w),
      wrote-wrote size (parts.0 ++ parts.1) w,
    )

-- A chunk is its result code, and its payload framed: EncodeChunk writes these bytes and no others
-- when the payload can be read and the writer takes them.
pub encode_chunk_layout :
    (code : ℕ) (r : Stream) (w : Writer) (comp : Option Compression)
    → IsSteady r
    → suc (length (framed comp (flat r))) ≤ w.room
    → encode_chunk code r w comp ≡ (none, wrote (code ∷ framed comp (flat r)) w)
unfolding encode_chunk encode_result
encode_chunk_layout code r w comp h fits = ground (
  arith,
  write_fits (code ∷ []) w,
  encode_header_and_payload-framed r (wrote (code ∷ []) w) comp h,
  wrote-wrote (code ∷ []) (framed comp (flat r)) w,
)

-- StreamChunk, told the size of the payload, writes what EncodeChunk writes, where the reader gives the
-- payload without an error until its end and the writer has room for the whole chunk.
pub stream_chunk-encode_chunk :
    (code : ℕ) (r : Stream) (w : Writer) (comp : Option Compression)
    → IsSteady r
    → suc (length (framed comp (flat r))) ≤ w.room
    → stream_chunk code (length (flat r)) r w comp ≡ encode_chunk code r w comp
unfolding stream_chunk encode_chunk encode_result
stream_chunk-encode_chunk code r w comp h fits = ground (
  arith,
  write_fits (code ∷ []) w,
  encode_header_and_payload-framed r (wrote (code ∷ []) w) comp h,
  stream_header_and_payload-framed r (wrote (code ∷ []) w) comp h,
)

-- What follows the size of a payload on the wire.
abbrev pub body : Option Compression → List ℕ → List ℕ
body none payload = payload
body (some c) payload = (c.compress payload).0 ++ (c.compress payload).1

pub framed-body :
    (comp : Option Compression) (payload : List ℕ)
    → framed comp payload ≡ put_uvarint (length payload) ++ body comp payload
framed-body none payload = refl
framed-body (some c) payload = refl
