-- ===== src/Examples/Statuses.antt =====
-- Two clients that exchange their statuses, and readers that return.
use nodewatch_api.Base.Text.{codes}
use nodewatch_api.Base.{
  ℕ, ◌≤◌, ◌≡◌, refl, false, true, Option, none, some, List, [], ◌∷◌, ◌++◌, length, take, drop,
  arith, replicate, Result, ok, err, inl, inr, ◌+◌, suc,
}
use nodewatch_api.Rpc.Stream.{Stream, RpcError, not_returned, unexpected_eof}
use nodewatch_api.Rpc.Reader.{BufLimitReader}
use nodewatch_api.Rpc.Encode.{Compression, bytes_reader, adjusted}
use nodewatch_api.Rpc.Varint.{put_uvarint}
use nodewatch_api.Rpc.Respond.{Chunk, is_error_code, read_limited, read_raw}
use nodewatch_api.Rpc.Respond.RoundTrip.{read_limited_payload}
use nodewatch_api.Rpc.Respond.Returns.{read_raw_returns}
use nodewatch_api.Rpc.Method.{Ssz, Remote}
use nodewatch_api.Rpc.Method.Exchange.{Serializes}
use nodewatch_api.Rpc.Serve.Valid.{IsCarried}
use nodewatch_api.Rpc.Encode.Layout.{framed, wrote}
use nodewatch_api.Host.Refusal.{fetch_status_refused}
use nodewatch_api.Clock.{ForkConfig}
use nodewatch_api.Host.{ChainStatus, Client, Inflate, fetch_status}
use nodewatch_api.Host.Listeners.{serve_beacon_status}
use nodewatch_api.Host.Status.{IsSendable, fetch_status_lem, serve_beacon_status_answers}

-- The layout of a status, for numbers below 256.
abbrev status_bytes : ChainStatus → List ℕ
status_bytes s =
    s.fork_digest
    ++ (s.finalized_root
        ++ (s.finalized_epoch ∷ replicate 7 0 ++ (s.head_root ++ (s.head_slot ∷ replicate 7 0))))

abbrev head : List ℕ → ℕ
head [] = 0
head (x ∷ xs) = x

abbrev parse_status : List ℕ → ChainStatus
parse_status bytes = record {
  fork_digest = take 4 bytes;
  finalized_root = take 32 (drop 4 bytes);
  finalized_epoch = head (drop 36 bytes);
  head_root = take 32 (drop 44 bytes);
  head_slot = head (drop 76 bytes);
}

abbrev parsed : Option (Result RpcError (List ℕ)) → Result RpcError ChainStatus
parsed none = err not_returned
parsed (some (err e)) = err e
parsed (some (ok bytes)) = ok (parse_status bytes)

abbrev plain_ssz : Ssz ChainStatus
plain_ssz = record {
  serialize = λ s. ok (status_bytes s);
  deserialize = λ comp len b. let (r, b') = read_limited (suc len) 512 len [] b in (parsed r, b');
}

abbrev status_at : ℕ → ℕ → ChainStatus
status_at digest slot = record {
  fork_digest = replicate 4 digest;
  finalized_root = replicate 32 9;
  finalized_epoch = 3;
  head_root = replicate 32 8;
  head_slot = slot;
}

-- A compression that leaves the bytes as they are, and needs ten more at most.
abbrev stored : Compression
stored = record {
  name = codes "snappy";
  max_encoded_len = λ n. ok (n + 10);
  compress = λ bytes. (bytes, []);
}

status_at-Serializes :
    (digest slot : ℕ)
    → Serializes plain_ssz
        (some stored)
        (status_at digest slot)
        (status_bytes (status_at digest slot))
status_at-Serializes digest slot = record {
  serialized = refl;
  deserialized = λ b o.
      let (b', e, _) =
        read_limited_payload 85 512 [] (status_bytes (status_at digest slot)) [] b (omega arith)
          (omega arith) o in
      rw e refl;
}

status_at-IsCarried :
    (digest slot : ℕ) → IsCarried (some stored) 84 (status_bytes (status_at digest slot))
unfolding adjusted
status_at-IsCarried digest slot = record {
  limit = 94;
  adjusts = refl;
  small = omega arith;
  within = omega arith;
  fits = omega arith;
  machine = omega arith;
  grows = λ c m e f. ground arith;
}

status_at-IsSendable :
    (digest slot : ℕ)
    → IsSendable plain_ssz 84
        (some stored)
        (status_at digest slot)
        (status_bytes (status_at digest slot))
status_at-IsSendable digest slot = record {
  serializes = status_at-Serializes digest slot;
  sized = refl;
  carried = status_at-IsCarried digest slot;
}

abbrev no_fork : ForkConfig
no_fork = record { supported = false; fork_digest = []; fork_epoch = 0 }

abbrev client_at : ℕ → ℕ → ℕ → Client
client_at digest old slot = record {
  local_status = status_at old slot;
  local_metadata = record { seq_number = 0; attnets = [] };
  fork_choice = record {
    clock = record { genesis_time = 0; seconds_per_slot = 12; slots_per_epoch = 32 };
    fork_config = record {
      altair = no_fork;
      bellatrix = no_fork;
      capella = no_fork;
      deneb = no_fork;
      electra = no_fork;
    };
    current_epoch = 0;
    current_fork_digest = replicate 4 digest;
  };
}

abbrev no_inflate : Inflate
no_inflate c len b = (err unexpected_eof, b)

-- A peer that answers any request with a status.
abbrev answering : Remote
answering = record {
  room = 85;
  answer = λ request. bytes_reader (0 ∷ 84 ∷ status_bytes (status_at 1 20));
}

fetch_status_lem_example :
    fetch_status plain_ssz 84 no_inflate 512 85
      (λ protocol. ok answering)
      (some stored)
      false
      (client_at 7 1 30)
    ≡ (some (status_at 1 20), none, record (client_at 7 1 30) { local_status = status_at 7 30 })
unfolding put_uvarint
fetch_status_lem_example =
    fetch_status_lem plain_ssz 84 (some stored) no_inflate 512 85 (λ protocol. ok answering) false
      (client_at 7 1 30) (status_at 1 20) (status_bytes (status_at 7 30))
      (status_bytes (status_at 1 20)) answering (status_at-IsSendable 7 30)
      (status_at-IsSendable 1 20) refl refl (omega arith) (omega arith) ((omega arith, refl), tt)
      refl

serve_beacon_status_answers_example :
    serve_beacon_status plain_ssz 84 stored
      (client_at 1 1 20)
      (bytes_reader (84 ∷ status_bytes (status_at 7 30)))
      (record { out = []; room = 86 })
      84
    ≡ (
      record (client_at 1 1 20) { local_status = status_at 7 30 },
      wrote
          (0 ∷ framed (some stored) (status_bytes (status_at 1 20)))
          (record { out = []; room = 86 }),
      (status_at-IsCarried 7 30).limit,
    )
unfolding put_uvarint
serve_beacon_status_answers_example =
    serve_beacon_status_answers plain_ssz 84 stored (client_at 1 1 20) (status_at 7 30)
      (status_bytes (status_at 7 30)) (status_bytes (status_at 1 20))
      (bytes_reader (84 ∷ status_bytes (status_at 7 30))) (record { out = []; room = 86 }) 84
      (λ e. omega arith) (status_at-Serializes 7 30) refl (status_at-IsCarried 7 30) refl
      ((omega arith, refl), tt) refl (omega arith)

abbrev failing : Stream
failing =
    record { bytes = 1 ∷ 2 ∷ []; error = none }
    ∷ record { bytes = []; error = some unexpected_eof }
    ∷ []

abbrev some_chunk : Chunk
some_chunk = record { chunk_index = 0; chunk_size = 5; result = 0; comp = none }

abbrev failing_reader : BufLimitReader
failing_reader = record { size = 1024; pending = []; rd = failing; n = 256; per_read = false }

read_raw_returns_example :
    (r : Result RpcError (List ℕ)) × ((read_raw 512 some_chunk failing_reader).0 ≡ some r)
    × ((bytes : List ℕ) → r ≡ ok bytes → length bytes ≤ 5)
read_raw_returns_example =
    read_raw_returns 512 some_chunk failing_reader (omega arith) (omega arith)
      (inl (omega arith), (inr (λ e. cc), tt)) ((λ e. absurd (e refl)), ((λ e. refl), tt))

abbrev refuser : Remote
refuser = record { room = 85; answer = λ request. bytes_reader (2 ∷ 2 ∷ 110 ∷ 111 ∷ []) }

fetch_status_refused_example :
    fetch_status plain_ssz 84 no_inflate 512 85
      (λ protocol. ok refuser)
      none
      true
      (client_at 7 1 30)
    ≡ (none, none, record (client_at 7 1 30) { local_status = status_at 7 30 })
unfolding put_uvarint is_error_code
fetch_status_refused_example =
    fetch_status_refused plain_ssz 84 no_inflate 512 85 (λ protocol. ok refuser) true
      (client_at 7 1 30) 2 (status_bytes (status_at 7 30)) (110 ∷ 111 ∷ []) refuser refl
      (omega arith) refl (omega arith) refl (omega arith) (omega arith) ((omega arith, refl), tt)
      refl

-- A request that says that it has three bytes.
abbrev short_request : Stream
short_request = bytes_reader (3 ∷ 1 ∷ 2 ∷ 3 ∷ [])
