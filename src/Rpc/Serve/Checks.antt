-- ===== src/Rpc/Serve/Checks.antt =====
-- What a server promises of the requests that it hands to a handler, and of its error chunks.
use nodewatch_api.Base.{
  ℕ, suc, ap, replicate, ◌∷◌, ◌⊎◌, ◌≤◌, ◌<◌, ◌^◌, ◌≡◌, ◌≢◌, refl, true, false, Option, none, some,
  List, [], ◌++◌, length, length-append, length-take, append-nil, sym, ◌∙◌, take, take-append, ltb,
  arith, ok, Result-cases, Bool-cases, ltb→lt, lt→ltb, ltb-false, inl, inr,
}
use nodewatch_api.Base.Text.{codes}
use nodewatch_api.Rpc.Stream.{Stream, RpcError, too_small, too_large, IsSteady, flat}
use nodewatch_api.Rpc.Reader.{BufLimitReader}
use nodewatch_api.Rpc.Varint.{
  put_uvarint, read_uvarint, read_uvarint-put_uvarint, read_uvarint-per_read,
}
use nodewatch_api.Rpc.Encode.{Compression}
use nodewatch_api.Rpc.Encode.Layout.{framed}
use nodewatch_api.Rpc.Respond.RoundTrip.{IsOpen, read_limited_payload}
use nodewatch_api.Rpc.Serve.{Request, receive, receive_all, raw_request, clip, request_buffer_size}

-- The reader as it stands before the length is read.
abbrev pub fresh : Stream → BufLimitReader
fresh stream = record {
  size = request_buffer_size;
  pending = [];
  rd = stream;
  n = 1;
  per_read = true;
}

-- A request with data that is handed on without an error has a length between the two bounds of its
-- method, whatever the compression.
pub receive_valid :
    (min_size max_size : ℕ) (comp : Option Compression) (stream : Stream)
    → max_size ≢ 0
    → (receive min_size max_size comp stream).0.invalid_input ≡ none
    → (min_size ≤ (receive min_size max_size comp stream).0.request_len)
      × ((receive min_size max_size comp stream).0.request_len ≤ max_size)
unfolding receive
receive_valid min_size max_size comp stream h e =
    elim (Result-cases (read_uvarint (fresh stream)).0) [
      | inr (x, r) ↦ ground arith
      | inl (len, r) ↦ ground arith
    ]

-- When the input is invalid, the reader that the handler is given still has a limit of one byte.
pub receive_invalid_limit :
    (min_size max_size : ℕ) (comp : Option Compression) (stream : Stream) (e : RpcError)
    → (receive min_size max_size comp stream).0.invalid_input ≡ some e
    → (b : BufLimitReader) × ((receive min_size max_size comp stream).0.reader ≡ some b) × (b.n ≡ 1)
unfolding receive
receive_invalid_limit min_size max_size comp stream e h = (
  record (read_uvarint (fresh stream)).1 { per_read = false },
  ground arith,
  (read_uvarint-per_read (fresh stream) refl).0,
)

-- A request that was sent as its size and its bytes, in whatever pieces it arrives, is handed on with
-- its size and no error, reading the raw request gives the bytes, and the handler's maximum stays as it
-- is. No compression; the size within the method's minimum and the maximum that the handler has.
pub receive_round_trip :
    (space min_size max_size : ℕ) (payload : List ℕ) (stream : Stream)
    → 1 ≤ space
    → max_size ≢ 0
    → min_size ≤ length payload
    → length payload ≤ max_size
    → max_size < 2 ^ 63
    → IsSteady stream
    → flat stream ≡ framed none payload
    → let (r, max_size') = receive min_size max_size none stream in
      (r.request_len ≡ length payload)
      × (r.invalid_input ≡ none)
      × (raw_request space r ≡ some (ok payload))
      × (max_size' ≡ max_size)
unfolding receive raw_request
receive_round_trip space min_size max_size payload stream hs h0 hmin hmax hm steady e =
    let (b, e1, r1, n1, p1) =
      read_uvarint-put_uvarint (length payload) payload (fresh stream) (omega arith)
        (record { roomy = omega arith; steady = steady; holds = e }) refl refl in
    let opened : IsOpen (length payload) (payload ++ [])
        (record b { n = max_size; per_read = false }) =
      record {
        ready = record {
          roomy = r1.roomy;
          steady = r1.steady;
          holds = r1.holds ∙ sym (append-nil payload);
        };
        limit = hmax;
        falling = refl;
      } in
    let (b2, e2, o2) =
      read_limited_payload (suc (length payload)) space [] payload []
        (record b { n = max_size; per_read = false }) hs (omega arith) opened in
    (ground arith, ground arith, ground arith, ground arith)

-- What is handed on where the maximum is 0.
abbrev pub nothing_read : Request
nothing_read = record { request_len = 0; reader = none; invalid_input = none }

receive_all_zero :
    (min_size : ℕ) (comp : Option Compression) (streams : List Stream)
    → receive_all min_size 0 comp streams ≡ replicate (length streams) nothing_read
unfolding receive_all receive
receive_all_zero min_size comp [] = refl
receive_all_zero min_size comp (stream ∷ streams) =
    ap (λ rs. nothing_read ∷ rs) (receive_all_zero min_size comp streams)

-- A request that tells a length out of bounds is handed on with an error, and the maximum is then 0.
pub receive_refused :
    (min_size max_size n : ℕ) (comp : Option Compression) (rest : List ℕ) (stream : Stream)
    → max_size ≢ 0
    → n < 2 ^ 64
    → (n < min_size) ⊎ (max_size < n)
    → IsSteady stream
    → flat stream ≡ put_uvarint n ++ rest
    → let (r, max_size') = receive min_size max_size comp stream in
      (e : RpcError) × (r.invalid_input ≡ some e) × (max_size' ≡ 0)
unfolding receive
receive_refused min_size max_size n comp rest stream h0 hn bad steady e =
    let (b, e1, r1, n1, p1) =
      read_uvarint-put_uvarint n rest (fresh stream) hn
        (record { roomy = omega arith; steady = steady; holds = e }) refl refl in
    elim (Bool-cases (ltb n min_size)) [
      | inl small ↦ (too_small, ground arith, ground arith)
      | inr enough ↦
          let large : ltb max_size n ≡ true = ground (arith, bad) in
          (too_large, ground arith, ground arith)
    ]

-- After one request that tells a length out of bounds, on a stream whose reads before it do not fail, a
-- handler that has a maximum other than 0 never reads a request again: each later stream, whatever it
-- holds, is handed on with the length 0, a nil reader and no error.
pub receive_all_refused :
    (min_size max_size n : ℕ) (comp : Option Compression) (rest : List ℕ) (stream : Stream)
    (streams : List Stream)
    → max_size ≢ 0
    → n < 2 ^ 64
    → (n < min_size) ⊎ (max_size < n)
    → IsSteady stream
    → flat stream ≡ put_uvarint n ++ rest
    → (r : Request) × (e : RpcError) × (r.invalid_input ≡ some e)
      × (receive_all min_size max_size comp (stream ∷ streams)
          ≡ r ∷ replicate (length streams) nothing_read)
unfolding receive_all
receive_all_refused min_size max_size n comp rest stream streams h0 hn bad steady e =
    let (x, invalid, zero_) =
      receive_refused min_size max_size n comp rest stream h0 hn bad steady e in
    let (r, m) = receive min_size max_size comp stream in
    (
      r,
      x,
      invalid,
      ap (λ k. r ∷ receive_all min_size k comp streams) zero_
          ∙ ap (λ rs. r ∷ rs) (receive_all_zero min_size comp streams),
    )

pub clip_short : (msg : List ℕ) → length msg ≤ 256 → clip msg ≡ msg
unfolding clip
clip_short msg h = rw (ltb-false _ _ h)

clip_long : (msg : List ℕ) → 256 < length msg → clip msg ≡ take 253 msg ++ codes "..."
unfolding clip
clip_long msg h = rw (lt→ltb _ _ h)

-- An error chunk never carries more than MaxErrSize bytes; a message that fits is sent whole, and of
-- a longer one the first 253 bytes.
pub clip_lem :
    (msg : List ℕ)
    → (length (clip msg) ≤ 256)
      × (length msg ≤ 256 → clip msg ≡ msg)
      × (256 < length msg → take 253 (clip msg) ≡ take 253 msg)
clip_lem msg = (
  bounded,
  clip_short msg,
  λ h. rw (clip_long msg h) (rw (full h) at (take-append (take 253 msg) (codes "..."))),
)
  where
    full : 256 < length msg → length (take 253 msg) ≡ 253
    full h = omega (arith, length-take 253 msg)

    bounded : length (clip msg) ≤ 256
    bounded = elim (Bool-cases (ltb 256 (length msg))) [
      | inl long ↦
          let h = ltb→lt 256 (length msg) long in
          rw (clip_long msg h, length-append (take 253 msg) (codes "...")) (omega (arith, full h))
      | inr short ↦ let h : length msg ≤ 256 = ground arith in rw (clip_short msg h) h
    ]
