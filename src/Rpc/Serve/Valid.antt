-- ===== src/Rpc/Serve/Valid.antt =====
-- A request that was sent whole, with any compression, as a listener receives it.
use nodewatch_api.Base.{
  ℕ, ◌≤◌, ◌<◌, ◌^◌, ◌≡◌, ◌≢◌, refl, sym, false, Option, none, some, List, length, ok, arith,
  Result-cases, inl, inr,
}
use nodewatch_api.Rpc.Stream.{Stream, IsSteady, flat}
use nodewatch_api.Rpc.Reader.{BufLimitReader}
use nodewatch_api.Rpc.Varint.{read_uvarint-put_uvarint}
use nodewatch_api.Rpc.Encode.{Compression, adjusted}
use nodewatch_api.Rpc.Encode.Layout.{framed, body, framed-body}
use nodewatch_api.Rpc.Respond.RoundTrip.{IsOpen}
use nodewatch_api.Rpc.Serve.{receive, check_length, set_limit}
use nodewatch_api.Rpc.Serve.Checks.{fresh}

-- A payload that may be sent where the given maximum applies: the maximum and what goes on the wire
-- are within the compression's encoded length, and the encoded length of that is no smaller.
pub record IsCarried (comp : Option Compression) (max_size : ℕ) (payload : List ℕ) : Type 0 where
  pub limit : ℕ
  pub adjusts : adjusted comp max_size ≡ ok limit
  pub small : length payload ≤ max_size
  pub within : max_size ≤ limit
  pub fits : length (body comp payload) ≤ limit
  pub machine : limit < 2 ^ 63
  pub grows :
      (c : Compression) (m : ℕ)
      → comp ≡ some c
      → c.max_encoded_len limit ≡ ok m
      → (limit ≤ m) × (m < 2 ^ 63)

set_limit_grows :
    (comp : Option Compression) (max_size : ℕ) (payload : List ℕ) (b : BufLimitReader)
    → (h : IsCarried comp max_size payload)
    → (n : ℕ) × (h.limit ≤ n) × (set_limit comp (ok h.limit) b ≡ record b { n = n })
unfolding set_limit
set_limit_grows none max_size payload b h = (h.limit, omega arith, ground (arith, h.machine))
set_limit_grows (some c) max_size payload b h = elim (Result-cases (c.max_encoded_len h.limit)) [
  | inl (m, e) ↦ rw e (m, (h.grows c m refl e).0, ground (arith, (h.grows c m refl e).1))
  | inr (x, e) ↦ rw e (h.limit, omega arith, ground (arith, h.machine))
]

check_length_carried :
    (min_size max_size : ℕ) (comp : Option Compression) (payload : List ℕ)
    → min_size ≤ length payload
    → (h : IsCarried comp max_size payload)
    → check_length min_size max_size comp (ok (length payload)) ≡ ok h.limit
unfolding check_length adjusted
check_length_carried min_size max_size none payload hmin h = ground (arith, h.small, h.adjusts)
check_length_carried min_size max_size (some c) payload hmin h = ground (arith, h.small, h.adjusts)

-- A request that was sent framed is handed on with its size and without an error, and its reader
-- will deliver exactly what was sent behind the size. The handler's maximum becomes the compression's
-- encoded length of it.
pub receive-framed :
    (min_size max_size : ℕ) (comp : Option Compression) (payload : List ℕ) (stream : Stream)
    → max_size ≢ 0
    → min_size ≤ length payload
    → (h : IsCarried comp max_size payload) → IsSteady stream
    → flat stream ≡ framed comp payload
    → (b : BufLimitReader) × IsOpen (length (body comp payload)) (body comp payload) b
      × (receive min_size max_size comp stream ≡ (
        record { request_len = length payload; reader = some b; invalid_input = none },
        h.limit,
      ))
unfolding receive
receive-framed min_size max_size comp payload stream h0 hmin h steady e =
    let (b, e1, r1, n1, p1) =
      read_uvarint-put_uvarint (length payload) (body comp payload) (fresh stream)
        (omega (arith, h.small, h.within, h.machine))
        (record {
          roomy = omega arith;
          steady = steady;
          holds = rw (sym (framed-body comp payload)) e;
        })
        refl refl in
    let limited = check_length_carried min_size max_size comp payload hmin h in
    let (n, le, e2) = set_limit_grows comp max_size payload (record b { per_read = false }) h in
    (
      record b { per_read = false; n = n },
      record {
        ready = record { roomy = r1.roomy; steady = r1.steady; holds = r1.holds };
        limit = omega (arith, h.fits);
        falling = refl;
      },
      ground arith,
    )
