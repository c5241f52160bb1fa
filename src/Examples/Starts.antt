-- ===== src/Examples/Starts.antt =====
-- A start of the program over libraries that always give a value.
use nodewatch_api.Base.{◌≡◌, ◌⊎◌, refl, some, List, [], ◌∷◌, ok}
use nodewatch_api.Base.Text.{Text, codes}
use nodewatch_api.Clock.{Clock}
use nodewatch_api.Config.Load.{IsComplete, boot_nodes}
use nodewatch_api.Store.Connect.{MongoLibrary, AreStores}
use nodewatch_api.Startup.{Library, start_crawler, Services, main_services}
use nodewatch_api.Startup.Launches.{EndsEarly, IsReady, start_crawler_all_or_nothing}
use nodewatch_api.Startup.Succeeds.{IsTaken, is_given, main_services_lem}
use nodewatch_api.Examples.Setup.{
  configured, given_database, decoder, environment, schedule, forks_kept,
}

abbrev texts_only : Library Text Text Text Text Text Text Text Text Text Text Text
texts_only = record {
  generate_key = λ n. ok (record { d = 70000; point = [] });
  unmarshal_key = λ bs. ok bs;
  decimal = λ n. n ∷ [];
  new_multiaddr = λ t. ok t;
  new_lib_host = λ k a. ok a;
  new_id_service = λ h. ok h;
  new_gossip_sub = λ h. ok tt;
  rlp_decode = λ bs. ok bs;
  parse_v4 = λ t. ok t;
  enode_new = λ r. ok r;
  open_db = λ t. ok t;
  listen_udp = λ ip n. ok ip;
  listen_v5 = λ s d k ns. ok s;
  unmarshal_text = λ b c. c;
  parse_digest = λ t. t;
  zero_digest = [];
  v5_bootnodes = [];
  add_func = ok tt;
}

abbrev clock : Clock
clock = record { genesis_time = 1606824023; seconds_per_slot = 12; slots_per_epoch = 32 }

start_crawler_all_or_nothing_example :
    let r = start_crawler texts_only (codes "custom") (codes "ab" ∷ []) clock schedule 1606824100 in
    EndsEarly texts_only r
    ⊎ ((addrs : List Text) × (boot_nodes [] (codes "custom") (codes "ab" ∷ []) ≡ some addrs)
        × IsReady texts_only addrs clock schedule 1606824100 r)
start_crawler_all_or_nothing_example =
    start_crawler_all_or_nothing texts_only (codes "custom") (codes "ab" ∷ []) clock schedule
      1606824100

abbrev mongo : MongoLibrary Text Text
mongo = record { new_client = λ uri. ok uri; connect = λ c. ok tt; ping = λ c. ok tt }

main_services_lem_example :
    (s : Services Text) × (main_services decoder (ok configured) environment mongo (ok tt) ≡ ok s)
    × (s.configuration.network ≡ configured.network)
    × (s.configuration.forks_of ≡ schedule)
    × AreStores given_database (codes "mongodb://db") s.peer_store s.record_store
    × IsComplete configured.kafka s.configuration.kafka
    × IsTaken s.configuration.kafka s.kafka_of
    × (s.has_kafka ≡ is_given s.configuration.kafka)
main_services_lem_example =
    main_services_lem decoder configured environment mongo (codes "mongodb://db") (ok tt)
      given_database (codes "mongodb://db") schedule refl refl (λ e. cc) forks_kept
      (refl, refl, refl) refl
