-- ===== src/Examples/Updates.antt =====
-- A peer that answers nothing, and one that answers at the first attempt.
use nodewatch_api.Base.{ℕ, ◌≡◌, refl, true, false, none, some, [], ◌∷◌}
use nodewatch_api.Base.Text.{codes}
use nodewatch_api.Agent.{clients}
use nodewatch_api.Peer.{
  Peer, score_good, set_connection_status, set_fork_digest, set_sync_status, set_protocol_version,
  set_user_agent,
}
use nodewatch_api.Store.Memory.{memory, memory_laws, lookup, replace_one, delete_one}
use nodewatch_api.Crawl.{Work, Attempt, collect_node_info, reached, peer_output, update_peer_info}
use nodewatch_api.Crawl.Updates.{update_peer_info_removes, update_peer_info_stores}
use nodewatch_api.Examples.Peers.{peer_of, no_answer, hex, uuid, start}

abbrev silent : Work
silent = record { attempts = no_answer; connected_at = 0; last_connected_at = 0; processed_at = 0 }

worst_removed :
    let s' = update_peer_info memory hex clients uuid 1 silent (peer_of 3) start in
    (lookup s'.db 3 ≡ none) × (s'.written ≡ [])
worst_removed =
    update_peer_info_removes memory memory_laws hex clients uuid 1 silent (peer_of 3) start
      (unfold collect_node_info in refl) refl (unfold delete_one in refl)

abbrev answer : ℕ → Attempt
answer i = record {
  done = false;
  connect = none;
  status = some (record { status_digest = []; head_slot = 9 });
  agent = some (codes "prysm");
  protocol = some (codes "1");
  at = 0;
}

abbrev answering : Work
answering = record { attempts = answer; connected_at = 5; last_connected_at = 6; processed_at = 7 }

update_peer_info_stores_example :
    let s' = update_peer_info memory hex clients uuid 1 answering (peer_of 3) start in
    (q : Peer) × (lookup s'.db 3 ≡ some q)
    × (q.is_connectable ≡ true)
    × (q.score ≡ score_good)
    × (s'.written ≡ peer_output memory hex clients uuid answering q ∷ [])
unfolding set_connection_status set_fork_digest set_sync_status set_protocol_version set_user_agent
update_peer_info_stores_example =
    update_peer_info_stores memory memory_laws hex clients uuid 1 answering (peer_of 3) (peer_of 3)
      start (unfold collect_node_info in refl) (unfold lookup in refl)
      (unfold replace_one reached collect_node_info in refl)
