-- ===== src/Agent/Fields.antt =====
-- The fields that are read from an agent text.
use nodewatch_api.Base.{◌≡◌, ◌≢◌, refl, List, [], ◌∷◌, arith, All}
use nodewatch_api.Base.Text.{
  Text, split, join, Lacks, contains, split-join, first_part, first_part-Lacks,
  first_part-keeps_Lacks,
}
use nodewatch_api.Agent.{
  ClientName, prysm, teku, unknown, ClientTable, find_client, or_others, version_part, os_part,
  or_unknown, standard_version, os_of, user_agent,
}

-- Whatever the text, a version in its standard form is not empty and holds neither `-` nor `+`.
or_unknown-Lacks :
    (v : Text)
    → Lacks b'-' v
    → Lacks b'+' v
    → (or_unknown v ≢ []) × Lacks b'-' (or_unknown v) × Lacks b'+' (or_unknown v)
unfolding or_unknown
or_unknown-Lacks [] h k = (λ e. cc, omega arith, omega arith)
or_unknown-Lacks (c ∷ cs) h k = (λ e. cc, h, k)

-- Whatever a client sends, its version is not empty and holds neither `-` nor `+`.
pub version-Lacks :
    (table : ClientTable) (ag : Text)
    → let v = (user_agent table ag).version in (v ≢ []) × Lacks b'-' v × Lacks b'+' v
unfolding user_agent standard_version
version-Lacks table ag =
    let name = or_others (find_client table (first_part (split b'/' ag))) in
    let v = first_part (split b'-' (version_part name (split b'/' ag))) in
    or_unknown-Lacks (first_part (split b'+' v))
      (first_part-keeps_Lacks b'+' b'-' v (first_part-Lacks b'-' _)) (first_part-Lacks b'+' v)

other_parts :
    (n : ClientName) (p a b : Text) (ps : List Text)
    → n ≢ teku
    → n ≢ prysm
    → (version_part n (p ∷ a ∷ b ∷ ps) ≡ a) × (os_part n (p ∷ a ∷ b ∷ ps) ≡ b)
unfolding version_part os_part
other_parts n p a b ps t q = ground arith

no_os : os_of [] ≡ unknown
unfolding os_of contains
no_os = refl

-- An agent text of parts that are joined by `/`: the first part gives the name. Teku has its version
-- in the third part and its system in the fourth; Prysm has its version in the second, and its system
-- is unknown; any other client has its version in the second part and its system in the third.
pub user_agent-join :
    (table : ClientTable) (p a b c : Text) (ps : List Text)
    → All (Lacks b'/') (p ∷ a ∷ b ∷ c ∷ ps)
    → let name = or_others (find_client table p) in
      let agent = user_agent table (join b'/' (p ∷ a ∷ b ∷ c ∷ ps)) in
      (name ≡ teku → agent ≡ record { name = teku; version = standard_version b; os = os_of c })
      × (name ≡ prysm → agent ≡ record { name = prysm; version = standard_version a; os = unknown })
      × (name ≢ teku
          → name ≢ prysm
          → agent ≡ record { name = name; version = standard_version a; os = os_of b })
unfolding user_agent version_part os_part
user_agent-join table p a b c ps h =
    let parts = split-join b'/' p (a ∷ b ∷ c ∷ ps) h in
    (
      λ e. rw (parts, e),
      λ e. rw (parts, e, no_os),
      λ t q.
          let (v, o) = other_parts (or_others (find_client table p)) p a b (c ∷ ps) t q in
          rw (parts, v, o),
    )
