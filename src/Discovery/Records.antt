-- ===== src/Discovery/Records.antt =====
-- Node records are read from hex and from base64 texts.
use nodewatch_api.Base.{
  ℕ, ◌<◌, ◌≡◌, refl, ◌∙◌, ap, Bool, true, false, none, some, List, [], ◌∷◌, ◌++◌, map, All, Result,
  ok, arith,
}
use nodewatch_api.Base.Text.{Text, codes, has_prefix}
use nodewatch_api.Peer.{hex_encode, hex_digit}
use nodewatch_api.Store.Queries.{hex_decode, hex_value}
use nodewatch_api.Store.Queries.Filters.{hex_decode-hex_encode}
use nodewatch_api.Discovery.Base64.{
  base64_letter, base64_groups, base64_encode, base64_groups_bounds, base64_letter_lem,
  base64_decode-base64_encode,
}
use nodewatch_api.Discovery.{
  is_space, trim_left, trim_right, trim_space, base64_decode, decode_record_hex,
  decode_record_base64, record_bytes, bytes_of_trimmed, parse_record, parse_node, parse_boot_nodes,
}

-- A text without spaces is not changed by trimming.
abbrev NoSpace : Text → Type 0
NoSpace = All (λ c. is_space c ≡ false)

trim_right_none : (s : Text) → NoSpace s → trim_right s ≡ s
unfolding trim_right
trim_right_none [] h = refl
trim_right_none (c ∷ []) h = ground (arith, h.0)
trim_right_none (c ∷ d ∷ s) h = rw (trim_right_none (d ∷ s) h.1) refl

trim_space_none : (s : Text) → NoSpace s → trim_space s ≡ s
unfolding trim_space trim_left
trim_space_none [] h = refl
trim_space_none (c ∷ s) h = rw h.0 (trim_right_none (c ∷ s) h)

letters-NoSpace : (vs : List ℕ) → All (λ v. v < 64) vs → NoSpace (map base64_letter vs)
letters-NoSpace [] h = tt
letters-NoSpace (v ∷ vs) h = ((base64_letter_lem v h.0).3, letters-NoSpace vs h.1)

base64_encode-NoSpace : (bs : List ℕ) → All (λ b. b < 256) bs → NoSpace (base64_encode bs)
unfolding base64_encode
base64_encode-NoSpace bs h = letters-NoSpace (base64_groups bs) (base64_groups_bounds bs h)

hex_encode-NoSpace : (bs : List ℕ) → All (λ b. b < 256) bs → NoSpace (hex_encode bs)
unfolding hex_encode hex_digit is_space
hex_encode-NoSpace [] h = tt
hex_encode-NoSpace (b ∷ bs) h =
    let hb = h.0 in (ground arith, (ground arith, hex_encode-NoSpace bs h.1))

-- The bytes of a record are found again in its base64 text behind `enr:`, and in its hex text behind
-- `0x`.
bytes_of_trimmed_enr :
    (t : Text) (bin : List ℕ)
    → bytes_of_trimmed (codes "enr:" ++ t) bin
      ≡ (elim (base64_decode t) [ some d ↦ d | none ↦ bin ])
unfolding bytes_of_trimmed decode_record_hex decode_record_base64 has_prefix hex_decode hex_value
bytes_of_trimmed_enr t bin = refl

bytes_of_trimmed_hex :
    (t : Text) (bin : List ℕ)
    → bytes_of_trimmed (codes "0x" ++ t) bin ≡ (elim (hex_decode t) [
      | some d ↦ d
      | none ↦ elim (decode_record_base64 (codes "0x" ++ t)) [ some d ↦ d | none ↦ bin ]
    ])
unfolding bytes_of_trimmed decode_record_hex has_prefix
bytes_of_trimmed_hex t bin = refl

record_bytes_enr :
    (bs : List ℕ) → All (λ b. b < 256) bs → record_bytes (codes "enr:" ++ base64_encode bs) ≡ bs
unfolding record_bytes
record_bytes_enr bs h =
    let source = codes "enr:" ++ base64_encode bs in
    let plain = trim_space_none source (refl, (refl, (refl, (refl, base64_encode-NoSpace bs h)))) in
    let decoded : bytes_of_trimmed source source ≡ bs =
      rw (bytes_of_trimmed_enr (base64_encode bs) source, base64_decode-base64_encode bs h) refl in
    ap (λ t. bytes_of_trimmed t source) plain ∙ decoded

record_bytes_hex :
    (bs : List ℕ) → All (λ b. b < 256) bs → record_bytes (codes "0x" ++ hex_encode bs) ≡ bs
unfolding record_bytes
record_bytes_hex bs h =
    let source = codes "0x" ++ hex_encode bs in
    let plain = trim_space_none source (refl, (refl, hex_encode-NoSpace bs h)) in
    let decoded : bytes_of_trimmed source source ≡ bs =
      rw (bytes_of_trimmed_hex (hex_encode bs) source, hex_decode-hex_encode bs h) refl in
    ap (λ t. bytes_of_trimmed t source) plain ∙ decoded

-- The texts of a record: in base64 behind `enr:`, or in hex behind `0x`.
abbrev pub text_of : Bool × List ℕ → Text
text_of (true, bs) = codes "enr:" ++ base64_encode bs
text_of (false, bs) = codes "0x" ++ hex_encode bs

module _ {E Record Node : Type 0} (rlp_decode : List ℕ → Result E Record)
    (parse_v4 : Text → Result E Node) (enode_new : Record → Result E Node) where
  -- A record of go-ethereum that decodes and whose signature is right.
  abbrev pub IsRecordOf : List ℕ → Node → Type 0
  IsRecordOf bs node =
      All (λ b. b < 256) bs × ((r : Record) × (rlp_decode bs ≡ ok r) × (enode_new r ≡ ok node))

  parse_node_reads :
      (source : Text) (bs : List ℕ) (node : Node)
      → has_prefix (codes "enode://") source ≡ false
      → record_bytes source ≡ bs
      → IsRecordOf bs node
      → parse_node rlp_decode parse_v4 enode_new source ≡ ok node
  unfolding parse_node
  parse_node_reads source bs node hp e (small, (r, decoded, valid)) =
      let read_ : parse_record rlp_decode parse_v4 enode_new source ≡ ok r =
        unfold parse_record in ap rlp_decode e ∙ decoded in
      rw (hp, read_) valid

  parse_node_text :
      (t : Bool × List ℕ) (node : Node)
      → IsRecordOf t.1 node
      → parse_node rlp_decode parse_v4 enode_new (text_of t) ≡ ok node
  unfolding has_prefix
  parse_node_text (true, bs) node h =
      parse_node_reads (text_of (true, bs)) bs node refl (record_bytes_enr bs h.0) h
  parse_node_text (false, bs) node h =
      parse_node_reads (text_of (false, bs)) bs node refl (record_bytes_hex bs h.0) h

  -- The nodes of some records, one by one.
  abbrev pub AllRecordsOf : List (Bool × List ℕ) → List Node → Type 0
  AllRecordsOf [] [] = Unit
  AllRecordsOf [] (n ∷ ns) = ⊥
  AllRecordsOf (t ∷ ts) [] = ⊥
  AllRecordsOf (t ∷ ts) (n ∷ ns) = IsRecordOf t.1 n × AllRecordsOf ts ns

  -- Nodes whose records are written as texts, each in base64 behind `enr:` or in hex behind `0x`, are all
  -- read from these texts, in order, where go-ethereum decodes each record's bytes and finds it valid.
  pub parse_boot_nodes_lem :
      (ts : List (Bool × List ℕ)) (nodes : List Node)
      → AllRecordsOf ts nodes
      → parse_boot_nodes rlp_decode parse_v4 enode_new (map text_of ts) ≡ ok nodes
  unfolding parse_boot_nodes
  parse_boot_nodes_lem [] [] h = refl
  parse_boot_nodes_lem [] (n ∷ ns) h = absurd h
  parse_boot_nodes_lem (t ∷ ts) [] h = absurd h
  parse_boot_nodes_lem (t ∷ ts) (n ∷ ns) h =
      ground (arith, parse_node_text t n h.0, parse_boot_nodes_lem ts ns h.1)
