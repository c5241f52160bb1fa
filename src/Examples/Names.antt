-- ===== src/Examples/Names.antt =====
-- Agent texts of some clients.
use nodewatch_api.Base.{◌≡◌, ◌≢◌, [], ◌∷◌, refl, arith, All}
use mathlib.Core.List.Permᴰ
use nodewatch_api.Base.Text.{Text, codes, join, Lacks}
use nodewatch_api.Agent.{
  ClientTable, prysm, lighthouse, teku, cortex, lodestar, nimbus, trinity, grandine, unknown,
  clients, find_client, or_others, standard_version, os_of, user_agent,
}
use nodewatch_api.Agent.Names.{user_agent_order}
use nodewatch_api.Agent.Fields.{user_agent-join}

abbrev teku_agent : Text
teku_agent = codes "teku/teku/v22.1.1+2-gabc/linux-x86_64"

-- The clients with the first two the other way round.
abbrev swapped : ClientTable
swapped =
    (lighthouse, codes "lighthouse" ∷ [])
    ∷ (prysm, codes "prysm" ∷ [])
    ∷ (teku, codes "teku" ∷ [])
    ∷ (cortex, codes "cortex" ∷ [])
    ∷ (lodestar, codes "lodestar" ∷ codes "js-libp2p" ∷ [])
    ∷ (nimbus, codes "nimbus" ∷ [])
    ∷ (trinity, codes "trinity" ∷ [])
    ∷ (grandine, codes "grandine" ∷ codes "rust-libp2p" ∷ [])
    ∷ []

user_agent_order_example : user_agent swapped teku_agent ≡ user_agent clients teku_agent
user_agent_order_example = user_agent_order swapped teku_agent ∣ Permᴰ.swap refl refl ∣₁

no_slash :
    All (Lacks b'/') (codes "Lighthouse" ∷ codes "v3.1.0-aa022f4" ∷ codes "x86_64-linux" ∷ [] ∷ [])
no_slash = ground arith

lighthouse_read :
    let name = or_others (find_client clients (codes "Lighthouse")) in
    let agent =
      user_agent clients (
        join b'/' (codes "Lighthouse" ∷ codes "v3.1.0-aa022f4" ∷ codes "x86_64-linux" ∷ [] ∷ [])) in
    (name ≡ teku
      → agent
        ≡ record { name = teku; version = standard_version (codes "x86_64-linux"); os = os_of [] })
    × (name ≡ prysm
        → agent ≡ record {
          name = prysm;
          version = standard_version (codes "v3.1.0-aa022f4");
          os = unknown;
        })
    × (name ≢ teku
        → name ≢ prysm
        → agent ≡ record {
          name = name;
          version = standard_version (codes "v3.1.0-aa022f4");
          os = os_of (codes "x86_64-linux");
        })
lighthouse_read =
    user_agent-join clients (codes "Lighthouse") (codes "v3.1.0-aa022f4") (codes "x86_64-linux") []
      [] no_slash
