-- ===== src/Examples/Discoveries.antt =====
-- A crawler that starts with an empty database and discovers a node.
use nodewatch_api.Base.{ℕ, false, none, some, List, [], ◌∷◌, ◌⊎◌}
use nodewatch_api.Base.Text.{codes}
use nodewatch_api.Agent.{clients}
use nodewatch_api.Peer.{Peer, Node}
use nodewatch_api.Store.Memory.{memory, memory_laws, lookup}
use nodewatch_api.Crawl.{Crawler, Event, discovered, listed, selected, taken, run}
use nodewatch_api.Crawl.Keeps.{Holds}
use nodewatch_api.Crawl.Origin.{OfId, WasDiscovered, run_discovered}
use nodewatch_api.Examples.Peers.{hex, uuid}

abbrev found_node : Node
found_node = record {
  identity = 5;
  node_text = [];
  record_text = [];
  ip_text = [];
  tcp = 9000;
  udp = 9000;
  raw_pubkey = some [];
  addr_info = some [];
  attnets_entry = none;
  eth2 = some (record { digest = codes "aabb"; next_version = []; next_epoch = 0 });
}

abbrev empty_crawler : Crawler (List Peer)
empty_crawler = record { db = []; pending = []; jobs = []; busy = []; written = [] }

abbrev discoveries : List Event
discoveries =
    discovered (codes "aabb") found_node
    ∷ discovered (codes "ccdd") (record found_node { identity = 6 })
    ∷ listed 5 20 1000
    ∷ selected (record { turn_at = 1000; stopped = false })
    ∷ taken
    ∷ []

abbrev Nobody : ℕ → Type 0
Nobody id = ⊥

empty_crawler-Holds : Holds (OfId Nobody) memory memory_laws empty_crawler
unfolding lookup
empty_crawler-Holds = (λ k p e. cc, tt, tt, tt)

run_discovered_example :
    Holds
      (OfId (λ id. Nobody id ⊎ WasDiscovered discoveries id))
      memory
      memory_laws
      (run memory hex clients uuid empty_crawler discoveries)
run_discovered_example =
    run_discovered hex clients uuid memory memory_laws discoveries Nobody empty_crawler
      empty_crawler-Holds
