-- ===== src/Rpc/Respond/Bounds.antt =====
-- What the response handler promises of any response: the limits on chunks.
use nodewatch_api.Base.{
  ℕ, zero, suc, ◌+◌, ◌≤◌, ◌≡◌, ◌≢◌, ◌⊎◌, refl, true, false, ◌&&◌, subst, sym, Option, arith, ok,
  Result-cases, Option-cases, Bool-cases, inl, inr,
}
use nodewatch_api.Rpc.Stream.{Stream}
use nodewatch_api.Rpc.Reader.{BufLimitReader, new_buf_limit_reader, read_byte}
use nodewatch_api.Rpc.Varint.{read_uvarint}
use nodewatch_api.Rpc.Encode.{Compression}
use nodewatch_api.Rpc.Respond.{
  Handler, Chunk, chunks, respond, chunk_limit, is_some, invalid_req_code, server_err_code,
  int_of_u64,
}

-- What the handler of a response may count on for each chunk that it is given: the reader's limit is
-- 256 for an error code and the given maximum for any other, and the size is within that bound.
abbrev pub IsAllowed : ℕ → Chunk → ℕ → Type 0
IsAllowed max_size c limit =
    ((c.result ≡ invalid_req_code) ⊎ (c.result ≡ server_err_code)
      → (c.chunk_size ≤ 256) × (limit ≡ 256))
    × (c.result ≢ invalid_req_code
        → c.result ≢ server_err_code
        → (c.chunk_size ≤ max_size) × (limit ≡ int_of_u64 max_size))

chunk_limit-IsAllowed :
    (max_size index size code limit : ℕ) (comp : Option Compression)
    → chunk_limit max_size code size ≡ ok limit
    → IsAllowed max_size
        (record { chunk_index = index; chunk_size = size; result = code; comp = comp })
        limit
unfolding chunk_limit
chunk_limit-IsAllowed max_size index size code limit comp e =
    (λ h. ground arith, λ h k. ground arith)

module _ {S : Type 0} (handle : Handler S) (max_size : ℕ) (comp : Option Compression) where
  -- What one round does to the handler's state: nothing, or one call of the handler on an allowed
  -- chunk with the next index, after which the loop ends or goes on.
  chunks_round :
      (left index : ℕ) (s : S) (b : BufLimitReader)
      → let final = (chunks handle max_size comp (suc left) index s b).1 in
        (final ≡ s)
        ⊎ ((c : Chunk) × (b1 : BufLimitReader) × (c.chunk_index ≡ index)
            × IsAllowed max_size c b1.n
            × ((final ≡ (handle s c b1).1)
                ⊎ ((b2 : BufLimitReader) × (final
                      ≡ (chunks handle max_size comp left (suc index) (handle s c b1).1 b2).1))))
  unfolding chunks
  chunks_round left index s b =
      let (first, b1) = read_byte (record b { n = 1 }) in
      let (len, b2) = read_uvarint (record b1 { n = 1; per_read = true }) in
      elim (Result-cases first) [
        | inr (e, e1) ↦ inl (ground arith)
        | inl (code, e1) ↦ elim (Result-cases len) [
          | inr (e, e2) ↦ inl (ground arith)
          | inl (size, e2) ↦ elim (Result-cases (chunk_limit max_size code size)) [
            | inr (e, e3) ↦ inl (ground arith)
            | inl (limit, e3) ↦
                let c : Chunk = record {
                  chunk_index = index;
                  chunk_size = size;
                  result = code;
                  comp = comp;
                } in
                let b3 : BufLimitReader = record b2 { per_read = false; n = limit } in
                inr (
                  c,
                  b3,
                  refl,
                  chunk_limit-IsAllowed max_size index size code limit comp e3,
                  elim (Option-cases (handle s c b3).0.error) [
                    | inr (e, e4) ↦ inl (ground arith)
                    | inl e4 ↦ elim (Bool-cases (is_some comp && (handle s c b3).0.close_fails)) [
                      | inl e5 ↦ inl (ground arith)
                      | inr e5 ↦ inr ((handle s c b3).2, ground arith)
                    ]
                  ],
                )
          ]
        ]
      ]

-- Any response, well formed or not: a property of the number of chunks and the handler's state that
-- holds at the start, and that the handler keeps whenever it is given the next chunk within the
-- limits, holds at the end, for some number of chunks that is at most the allowed number. So the
-- handler is given chunks with indices 0, 1, 2 and so on, no more of them than allowed, none larger
-- than the limit for its code, each with a reader limited accordingly.
pub respond_safe :
    {S : Type 0} (handle : Handler S) (max_size : ℕ) (comp : Option Compression)
    (P : ℕ → S → Type 0)
    → ((s : S) (c : Chunk) (b : BufLimitReader)
        → P c.chunk_index s
        → IsAllowed max_size c b.n
        → P (suc c.chunk_index) (handle s c b).1)
    → (max_count : ℕ) (s : S) (r : Stream) → P 0 s
    → (k : ℕ) × (k ≤ max_count) × P k (respond handle max_size comp max_count s r).1
unfolding respond
respond_safe {S} handle max_size comp P keeps max_count s r h =
    let (k, le, p) = chunks_keep max_count 0 s (new_buf_limit_reader r 1024 0) h in
    (k, omega arith, p)
  where
    called :
        (index : ℕ) (t : S) (c : Chunk) (b1 : BufLimitReader)
        → c.chunk_index ≡ index
        → IsAllowed max_size c b1.n
        → P index t
        → P (suc index) (handle t c b1).1
    called index t c b1 i allowed p =
        subst (λ n. P (suc n) (handle t c b1).1) i
          (keeps t c b1 (subst (λ n. P n t) (sym i) p) allowed)

    chunks_keep :
        (left index : ℕ) (t : S) (b : BufLimitReader)
        → P index t
        → (k : ℕ) × (k ≤ index + left) × P k (chunks handle max_size comp left index t b).1
    chunks_keep zero index t b p = (index, omega arith, unfold chunks in p)
    chunks_keep (suc left) index t b p = elim (chunks_round handle max_size comp left index t b) [
      | inl e ↦ (index, omega arith, rw e p)
      | inr (c, b1, i, allowed, inl e) ↦
          (suc index, omega arith, rw e (called index t c b1 i allowed p))
      | inr (c, b1, i, allowed, inr (b2, e)) ↦
          let (k, le, q) =
            chunks_keep left (suc index) (handle t c b1).1 b2 (called index t c b1 i allowed p) in
          (k, omega arith, rw e q)
    ]
