-- ===== src/Discovery.antt =====
-- crawler/crawl/udpv5.go: the texts that node records are read from. They are taken to be ASCII, so
-- that code points are bytes. What a record or an enode URL means is left to go-ethereum.
pub mod Base64
pub mod Records
use nodewatch_api.Base.{
  ℕ, ◌+◌, ◌-◌, ◌*◌, ◌/◌, ◌%◌, Bool, true, false, ◌&&◌, ◌||◌, Option, none, some, List, [], ◌∷◌,
  ◌++◌, leb, ◌==◌, drop, if◌then◌else◌, Result, ok, err,
}
use nodewatch_api.Base.Text.{Text, codes, has_prefix}
use nodewatch_api.Store.Queries.{hex_decode}

-- bytes.TrimSpace
unfoldable pub is_space : ℕ → Bool
is_space c = leb 9 c && leb c 13 || c == 32

unfoldable pub trim_left : Text → Text
unfolding is_space
trim_left [] = []
trim_left (c ∷ s) = let rest = trim_left s in if is_space c then rest else c ∷ s

unfoldable pub trim_right : Text → Text
unfolding is_space
trim_right [] = []
trim_right (c ∷ s) = elim (trim_right s) [
  | [] ↦ if is_space c then [] else c ∷ []
  | d ∷ t ↦ c ∷ d ∷ t
]

unfoldable pub trim_space : Text → Text
unfolding trim_left trim_right
trim_space s = trim_right (trim_left s)

-- base64.RawURLEncoding: the value of a letter, and the bytes of a text, in which line ends are skipped
-- and the bits that fill no byte are not looked at.
unfoldable pub base64_value : ℕ → Option ℕ
base64_value c =
    if leb b'A' c && leb c b'Z'
    then some (c - 65)
    else if leb b'a' c && leb c b'z'
    then some (c - 71)
    else if leb b'0' c && leb c b'9'
    then some (c + 4)
    else if c == b'-'
    then some 62
    else if c == b'_'
    then some 63
    else none

base64_values : Text → Option (List ℕ)
unfolding base64_value
base64_values [] = some []
base64_values (c ∷ s) =
    let rest = base64_values s in
    if c == 10 || c == 13 then rest else elim (base64_value c) [
      | none ↦ none
      | some v ↦ elim rest [ none ↦ none | some vs ↦ some (v ∷ vs) ]
    ]

-- Bytes of four values each, and of the two or three that are left.
base64_bytes : List ℕ → Option (List ℕ)
base64_bytes [] = some []
base64_bytes (a ∷ []) = none
base64_bytes (a ∷ b ∷ []) = some ((a * 4 + b / 16) ∷ [])
base64_bytes (a ∷ b ∷ c ∷ []) = some ((a * 4 + b / 16) ∷ (b % 16 * 16 + c / 4) ∷ [])
base64_bytes (a ∷ b ∷ c ∷ d ∷ rest) = elim (base64_bytes rest) [
  | none ↦ none
  | some bs ↦ some ((a * 4 + b / 16) ∷ (b % 16 * 16 + c / 4) ∷ (c % 4 * 64 + d) ∷ bs)
]

pub base64_decode : Text → Option (List ℕ)
unfolding base64_values base64_bytes
base64_decode s = elim (base64_values s) [ none ↦ none | some vs ↦ base64_bytes vs ]

-- decodeRecordHex
decode_record_hex : Text → Option (List ℕ)
decode_record_hex b = hex_decode (if has_prefix (codes "0x") b then drop 2 b else b)

-- decodeRecordBase64
decode_record_base64 : Text → Option (List ℕ)
unfolding base64_decode
decode_record_base64 b = base64_decode (if has_prefix (codes "enr:") b then drop 4 b else b)

-- The bytes that parseRecord decodes: those of the hex text, or else of the base64 text, or else the
-- text itself.
bytes_of_trimmed : Text → List ℕ → List ℕ
unfolding decode_record_hex decode_record_base64
bytes_of_trimmed trimmed bin = elim (decode_record_hex trimmed) [
  | some d ↦ d
  | none ↦ elim (decode_record_base64 trimmed) [ some d ↦ d | none ↦ bin ]
]

record_bytes : Text → List ℕ
unfolding trim_space bytes_of_trimmed
record_bytes source = bytes_of_trimmed (trim_space source) source

-- Of go-ethereum: a decoder of records, a parser of enode URLs, and the check of a record's signature.
module _ {E Record Node : Type 0} (rlp_decode : List ℕ → Result E Record)
    (parse_v4 : Text → Result E Node) (enode_new : Record → Result E Node) where
  pub parse_record : Text → Result E Record
  unfolding record_bytes
  parse_record source = rlp_decode (record_bytes source)

  pub parse_node : Text → Result E Node
  unfolding parse_record
  parse_node source =
      if has_prefix (codes "enode://") source
      then parse_v4 source
      else elim (parse_record source) [ err e ↦ err e | ok r ↦ enode_new r ]

  -- parseBootNodes: the nodes, or the first error.
  unfoldable pub parse_boot_nodes : List Text → Result E (List Node)
  unfolding parse_node
  parse_boot_nodes [] = ok []
  parse_boot_nodes (source ∷ rest) =
      let others = parse_boot_nodes rest in
      elim (parse_node source) [
        | err e ↦ err e
        | ok node ↦ elim others [ err e ↦ err e | ok nodes ↦ ok (node ∷ nodes) ]
      ]
