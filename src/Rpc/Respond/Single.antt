-- ===== src/Rpc/Respond/Single.antt =====
-- A response of one chunk, with any compression and any handler.
use nodewatch_api.Base.{
  ℕ, ◌≤◌, ◌<◌, ◌^◌, ◌≡◌, refl, sym, true, false, ◌&&◌, Option, none, List, ◌∷◌, ◌++◌, length, ok,
  arith,
}
use nodewatch_api.Rpc.Stream.{Stream, IsSteady, flat}
use nodewatch_api.Rpc.Reader.{BufLimitReader, new_buf_limit_reader}
use nodewatch_api.Rpc.Reader.Bytes.{read_byte-IsReady}
use nodewatch_api.Rpc.Varint.{put_uvarint, read_uvarint-put_uvarint}
use nodewatch_api.Rpc.Encode.{Compression}
use nodewatch_api.Rpc.Encode.Layout.{framed, body, framed-body}
use nodewatch_api.Rpc.Respond.{
  Handler, Chunk, chunks, respond, chunk_limit, is_some, success_code, is_error_code,
}
use nodewatch_api.Rpc.Respond.RoundTrip.{IsOpen}

-- A chunk with the success code is let through up to the given maximum.
pub chunk_limit_success :
    (limit size : ℕ)
    → size ≤ limit
    → limit < 2 ^ 63
    → chunk_limit limit success_code size ≡ ok limit
unfolding chunk_limit
chunk_limit_success limit size h hm = ground arith

pub chunk_limit_error :
    (max_size code size : ℕ)
    → is_error_code code ≡ true
    → size ≤ 256
    → chunk_limit max_size code size ≡ ok 256
unfolding chunk_limit
chunk_limit_error max_size code size k h = ground arith

module _ {S : Type 0} (handle : Handler S) (comp : Option Compression) where
  -- A response of one chunk is the handler called on it, once.
  pub respond_one :
      (max_size limit code : ℕ) (payload : List ℕ) (s : S) (r : Stream)
      → chunk_limit max_size code (length payload) ≡ ok limit
      → length (body comp payload) ≤ limit
      → length payload < 2 ^ 64
      → IsSteady r
      → flat r ≡ code ∷ framed comp payload
      → let c : Chunk = record {
        chunk_index = 0;
        chunk_size = length payload;
        result = code;
        comp = comp;
      } in
        (b : BufLimitReader) × IsOpen (length (body comp payload)) (body comp payload) b
        × ((handle s c b).0.error ≡ none
            → (is_some comp && (handle s c b).0.close_fails) ≡ false
            → ((respond handle max_size comp 1 s r).0 ≡ none)
              × ((respond handle max_size comp 1 s r).1 ≡ (handle s c b).1))
  unfolding respond chunks new_buf_limit_reader
  respond_one max_size limit code payload s r hc hl hm steady e =
      let size = length payload in
      let start = record (new_buf_limit_reader r 1024 0) { n = 1 } in
      let (b1, e1, r1, n1, p1) =
        read_byte-IsReady start code (put_uvarint size ++ body comp payload)
          (record {
            roomy = omega arith;
            steady = steady;
            holds = rw (sym (framed-body comp payload)) e;
          })
          refl in
      let (b2, e2, r2, n2, p2) =
        read_uvarint-put_uvarint size (body comp payload) (record b1 { n = 1; per_read = true }) hm
          (record { roomy = r1.roomy; steady = r1.steady; holds = r1.holds }) refl refl in
      let b : BufLimitReader = record b2 { per_read = false; n = limit } in
      (
        b,
        record {
          ready = record { roomy = r2.roomy; steady = r2.steady; holds = r2.holds };
          limit = hl;
          falling = refl;
        },
        λ h k. (ground arith, ground arith),
      )
