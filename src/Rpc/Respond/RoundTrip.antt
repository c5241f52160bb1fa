-- ===== src/Rpc/Respond/RoundTrip.antt =====
-- A response that was written by EncodeChunk is read back chunk by chunk.
use nodewatch_api.Base.{
  ℕ, zero, suc, ◌≤◌, ◌<◌, ◌^◌, ◌≡◌, refl, sym, ap, ◌∙◌, true, false, none, some, List, [], ◌∷◌,
  ◌++◌, length, length-append, append_assoc, append-nil, All, drop, length-drop, min, arith,
  if◌then◌else◌, ok, err,
}
use nodewatch_api.Rpc.Stream.{Stream, eof, flat, IsSteady}
use nodewatch_api.Rpc.Reader.{BufLimitReader, new_buf_limit_reader, read}
use nodewatch_api.Rpc.Reader.Limits.{content, read_lem, read_count}
use nodewatch_api.Rpc.Reader.Bytes.{IsReady, read-IsSteady, read_byte-IsReady, read_byte_end}
use nodewatch_api.Rpc.Varint.{put_uvarint, read_uvarint-put_uvarint}
use nodewatch_api.Rpc.Respond.{
  Handler, Chunk, chunks, respond, chunk_limit, is_error_code, read_limited, read_raw,
}

append_split :
    (us vs xs ys : List ℕ)
    → us ++ vs ≡ xs ++ ys
    → length us ≤ length xs
    → (xs ≡ us ++ drop (length us) xs) × (vs ≡ drop (length us) xs ++ ys)
append_split [] vs xs ys e h = (refl, e)
append_split (u ∷ us) vs [] ys e h = absurd (omega arith)
append_split (u ∷ us) vs (x ∷ xs) ys e h =
    let (e1, e2) = append_split us vs xs ys (cc) (omega arith) in (cc, e2)

-- A reader that will deliver `bs`, with a limit of at least `k` that falls as it is read.
pub record IsOpen (k : ℕ) (bs : List ℕ) (b : BufLimitReader) : Type 0 where
  pub ready : IsReady bs b
  pub limit : k ≤ b.n
  pub falling : b.per_read ≡ false

-- One read of a reader that will deliver a payload of at least one byte takes the front of it.
read_front :
    (space : ℕ) (payload rest : List ℕ) (b : BufLimitReader)
    → 1 ≤ space
    → 1 ≤ length payload
    → IsOpen (length payload) (payload ++ rest) b
    → let (r, b') = read (min space (length payload)) b in
      (r.error ≡ none)
      × (r.count ≡ length r.filled)
      × (1 ≤ length r.filled)
      × (length r.filled ≤ length payload)
      × (payload ≡ r.filled ++ drop (length r.filled) payload)
      × IsOpen (length (drop (length r.filled) payload)) (drop (length r.filled) payload ++ rest) b'
read_front space payload rest b hs hp o =
    let k = min space (length payload) in
    let held = ap length o.ready.holds in
    let (e, some_, st, sz, pr) =
      read-IsSteady k b (omega arith) (omega (arith, o.limit)) (omega (arith, o.ready.roomy))
        o.ready.steady (omega (arith, held, length-append payload rest)) in
    let (kept, le, taken, left) = read_lem k b in
    let (cnt, fits) = read_count k b e in
    let (e1, e2) =
      append_split (read k b).0.filled (content (read k b).1) payload rest (kept ∙ o.ready.holds)
        (omega arith) in
    (
      e,
      cnt,
      some_,
      omega arith,
      e1,
      record {
        ready = record { roomy = omega (arith, o.ready.roomy); steady = st; holds = e2 };
        limit =
            ground (arith, o.limit, o.falling, length-drop (length (read k b).0.filled) payload);
        falling = pr ∙ o.falling;
      },
    )

pub read_limited_payload :
    (fuel space : ℕ) (buf payload rest : List ℕ) (b : BufLimitReader)
    → 1 ≤ space
    → length payload < fuel
    → IsOpen (length payload) (payload ++ rest) b
    → (b' : BufLimitReader) × (read_limited fuel space (length payload) buf b
        ≡ (some (ok (buf ++ payload)), b'))
      × IsOpen 0 rest b'
unfolding read_limited
read_limited_payload zero space buf payload rest b hs hf o = absurd (omega arith)
read_limited_payload (suc fuel) space buf [] rest b hs hf o = (b, ground (arith, append-nil buf), o)
read_limited_payload (suc fuel) space buf (x ∷ xs) rest b hs hf o =
    let payload : List ℕ = x ∷ xs in
    let (e, cnt, one, le, split, o') = read_front space payload rest b hs (omega arith) o in
    let r = (read (min space (length payload)) b).0 in
    let later = drop (length r.filled) payload in
    let (b2, e2, o2) =
      read_limited_payload fuel space (buf ++ r.filled) later rest
        (read (min space (length payload)) b).1 hs
        (omega (arith, length-drop (length r.filled) payload)) o' in
    (b2, ground (arith, append_assoc buf r.filled later, length-drop (length r.filled) payload), o2)

-- Reading a chunk's bytes gives the payload, and leaves the reader right behind it.
pub read_raw_payload :
    (space : ℕ) (c : Chunk) (payload rest : List ℕ) (b : BufLimitReader)
    → 1 ≤ space
    → c.chunk_size ≡ length payload
    → IsOpen (length payload) (payload ++ rest) b
    → (b' : BufLimitReader) × (read_raw space c b ≡ (some (ok payload), b')) × IsOpen 0 rest b'
unfolding read_raw
read_raw_payload space c payload rest b hs hc o =
    let (b', e, o') =
      read_limited_payload (suc (length payload)) space [] payload rest b hs (omega arith) o in
    (b', cc, o')

-- A chunk as it was sent.
pub record Sent : Type 0 where
  pub code : ℕ
  pub payload : List ℕ

abbrev pub wire : List Sent → List ℕ
wire [] = []
wire (c ∷ cs) = c.code ∷ (put_uvarint (length c.payload) ++ (c.payload ++ wire cs))

-- The limits that a sent chunk meets.
abbrev pub IsSendable : ℕ → Sent → Type 0
IsSendable max_size c =
    (c.code < 256)
    × (length c.payload ≤ max_size)
    × (is_error_code c.code ≡ true → length c.payload ≤ 256)

-- What a handler got: each chunk with its bytes.
abbrev pub received : ℕ → List Sent → List (Chunk × List ℕ)
received index [] = []
received index (c ∷ cs) =
    (
      record { chunk_index = index; chunk_size = length c.payload; result = c.code; comp = none },
      c.payload,
    )
    ∷ received (suc index) cs

-- A handler that reads each chunk's bytes and keeps them. The first case is never reached.
abbrev pub collect : ℕ → Handler (List (Chunk × List ℕ))
collect space got c b =
    let (r, b') = read_raw space c b in
    elim r [
      | none ↦ (record { error = some eof; close_fails = false }, got, b')
      | some (err e) ↦ (record { error = some e; close_fails = false }, got, b')
      | some (ok bytes) ↦ (record { error = none; close_fails = false }, got ++ (c, bytes) ∷ [], b')
    ]

module _ (space max_size : ℕ) (hs : 1 ≤ space) (hm : max_size < 2 ^ 63) where
  chunk_round :
      (left index : ℕ) (got : List (Chunk × List ℕ)) (c : Sent) (rest : List ℕ) (b : BufLimitReader)
      → IsSendable max_size c
      → IsReady (c.code ∷ (put_uvarint (length c.payload) ++ (c.payload ++ rest))) b
      → b.per_read ≡ false
      → (b' : BufLimitReader) × (chunks (collect space) max_size none (suc left) index got b
          ≡ chunks
              (collect space)
              max_size
              none
              left
              (suc index)
              (got
                ++ (
                  record {
                    chunk_index = index;
                    chunk_size = length c.payload;
                    result = c.code;
                    comp = none;
                  },
                  c.payload,
                )
                  ∷ [])
              b')
        × IsReady rest b'
        × (b'.per_read ≡ false)
  unfolding chunks
  chunk_round left index got c rest b ok_ r hp =
      let payload = c.payload in
      let size = length payload in
      let (b1, e1, r1, n1, p1) =
        read_byte-IsReady (record b { n = 1 }) c.code (put_uvarint size ++ (payload ++ rest))
          (record { roomy = r.roomy; steady = r.steady; holds = r.holds }) refl in
      let (b2, e2, r2, n2, p2) =
        read_uvarint-put_uvarint size (payload ++ rest) (record b1 { n = 1; per_read = true })
          (omega arith) (record { roomy = r1.roomy; steady = r1.steady; holds = r1.holds }) refl
          refl in
      let limit : ℕ = if is_error_code c.code then 256 else max_size in
      let e3 : chunk_limit max_size c.code size ≡ ok limit = unfold chunk_limit in ground arith in
      let sent : Chunk = record {
        chunk_index = index;
        chunk_size = size;
        result = c.code;
        comp = none;
      } in
      let (b4, e4, o4) =
        read_raw_payload space sent payload rest (record b2 { per_read = false; n = limit }) hs refl
          (record {
            ready = record { roomy = r2.roomy; steady = r2.steady; holds = r2.holds };
            limit = ground arith;
            falling = refl;
          }) in
      (b4, ground arith, o4.ready, o4.falling)

  chunks-received :
      (cs : List Sent) (left index : ℕ) (got : List (Chunk × List ℕ)) (b : BufLimitReader)
      → All (IsSendable max_size) cs
      → IsReady (wire cs) b
      → b.per_read ≡ false
      → length cs ≤ left
      → let (e, all, _) = chunks (collect space) max_size none left index got b in
        (e ≡ none) × (all ≡ got ++ received index cs)
  chunks-received [] zero index got b hs_ r hp hl = unfold chunks in (refl, sym (append-nil got))
  chunks-received [] (suc left) index got b hs_ r hp hl =
      let ready : IsReady [] (record b { n = 1 }) = record {
        roomy = r.roomy;
        steady = r.steady;
        holds = r.holds;
      } in
      let ended = read_byte_end (record b { n = 1 }) ready refl in
      unfold chunks in (ground arith, ground (arith, append-nil got))
  chunks-received (c ∷ cs) zero index got b hs_ r hp hl = absurd (omega arith)
  chunks-received (c ∷ cs) (suc left) index got b hs_ r hp hl =
      let (b', e, r', hp') = chunk_round left index got c (wire cs) b hs_.0 r hp in
      let this : Chunk × List ℕ = (
        record { chunk_index = index; chunk_size = length c.payload; result = c.code; comp = none },
        c.payload,
      ) in
      let (none_, all) =
        chunks-received cs left (suc index) (got ++ this ∷ []) b' hs_.1 r' hp' (omega arith) in
      (cc, cc (append_assoc got (this ∷ []) (received (suc index) cs)))

-- A response that consists of chunks as EncodeChunk writes them, in whatever pieces it arrives, is
-- handled without an error, and a handler that reads each chunk's bytes is given exactly these
-- chunks, in order, with their indices, sizes, codes and bytes. No compression; at most the allowed
-- number of chunks; each payload within the limits.
pub respond_round_trip :
    (space max_size max_count : ℕ) (cs : List Sent) (r : Stream)
    → 1 ≤ space
    → max_size < 2 ^ 63
    → All (IsSendable max_size) cs
    → length cs ≤ max_count
    → IsSteady r
    → flat r ≡ wire cs
    → let (e, all, _) = respond (collect space) max_size none max_count [] r in
      (e ≡ none) × (all ≡ received 0 cs)
unfolding respond new_buf_limit_reader
respond_round_trip space max_size max_count cs r hs hm sendable hl steady e =
    chunks-received space max_size hs hm cs max_count 0 [] (new_buf_limit_reader r 1024 0) sendable
      (record { roomy = omega arith; steady = steady; holds = e }) refl hl
