-- ===== src/Keys.antt =====
-- utils/crypto/crypto.go: private keys between the number that go-ethereum keeps and the 32 bytes that
-- libp2p reads. The functions of the curve are parameters.
pub mod Padding
use nodewatch_api.Base.{
  ℕ, zero, suc, ◌+◌, ◌-◌, ◌*◌, ◌/◌, ◌%◌, Bool, Option, none, some, List, [], ◌∷◌, ◌++◌, length, ltb,
  ◌==◌, replicate, if◌then◌else◌, Result, ok, err,
}

-- big.Int.SetBytes: the number with the given bytes, the most significant first.
abbrev pub set_bytes_from : ℕ → List ℕ → ℕ
set_bytes_from acc [] = acc
set_bytes_from acc (b ∷ bs) = set_bytes_from (acc * 256 + b) bs

abbrev pub set_bytes : List ℕ → ℕ
set_bytes = set_bytes_from 0

-- big.Int.Bytes of a number of at most as many bytes as given: no byte 0 in front.
unfoldable pub big_bytes : ℕ → ℕ → List ℕ
big_bytes zero d = []
big_bytes (suc n) d =
    let front = big_bytes n (d / 256) in if d == 0 then [] else front ++ (d % 256) ∷ []

-- The bytes of a key with zero bytes in front where there are fewer than 32.
unfoldable pub pad_key : List ℕ → List ℕ
pad_key bytes = if ltb (length bytes) 32 then replicate (32 - length bytes) 0 ++ bytes else bytes

-- An ecdsa.PrivateKey on the curve: the number D and the point that belongs to it.
pub record PrivateKey (Point : Type 0) : Type 0 where
  pub d : ℕ
  pub point : Point

pub data KeyError : Type 0 where
  not_secp256k1 raw_failed x_overflows y_overflows : KeyError

-- ConvertToInterfacePrivkey, over crypto.UnmarshalSecp256k1PrivateKey.
unfoldable pub convert_to_interface_privkey :
    {Point Key E : Type 0} → (List ℕ → Result E Key) → PrivateKey Point → Result E Key
unfolding pad_key
convert_to_interface_privkey unmarshal key = unmarshal (pad_key (big_bytes 32 key.d))

-- ConvertFromInterfacePrivKey: `as_secp` is the cast to a key of the curve, `raw` its bytes, and
-- `scalar_base_mult` the point of some bytes.
unfoldable pub convert_from_interface_priv_key :
    {Point Key Secp : Type 0}
    → (Key → Option Secp)
    → (Secp → Option (List ℕ))
    → (List ℕ → Point)
    → Key
    → Result KeyError (PrivateKey Point)
convert_from_interface_priv_key as_secp raw scalar_base_mult key = elim (as_secp key) [
  | none ↦ err not_secp256k1
  | some secp ↦ elim (raw secp) [
    | none ↦ err raw_failed
    | some bytes ↦ ok (record { d = set_bytes bytes; point = scalar_base_mult bytes })
  ]
]

-- ConvertToInterfacePubkey: `set_byte_slice` gives a value of the curve's field and whether the bytes
-- overflow it, and `new_public_key` the key of two such values.
unfoldable pub convert_to_interface_pubkey :
    {Field Key : Type 0}
    → (List ℕ → Field × Bool)
    → (Field → Field → Key)
    → ℕ × ℕ
    → Result KeyError Key
convert_to_interface_pubkey set_byte_slice new_public_key (x, y) =
    let (x_val, x_over) = set_byte_slice (big_bytes 32 x) in
    let (y_val, y_over) = set_byte_slice (big_bytes 32 y) in
    if x_over
    then err x_overflows
    else if y_over
    then err y_overflows
    else ok (new_public_key x_val y_val)
