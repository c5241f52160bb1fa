-- ===== src/Store/Connect.antt =====
-- New of store/peerstore/mongo/mongo.go and of store/record/mongo/mongo.go, over the driver of the
-- database.
use nodewatch_api.Base.{◌≡◌, refl, ◌*◌, ◌^◌, Result, ok, ◌>>=◌}
use nodewatch_api.Base.Int.{ℤ, pos, wrap}
use nodewatch_api.Base.Text.{Text}
use nodewatch_api.Config.Load.{Database}

-- What the driver answers, whatever the time limits are.
pub record MongoLibrary (E Client : Type 0) : Type 0 where
  pub new_client : Text → Result E Client
  pub connect : Client → Result E (Unit {0})
  pub ping : Client → Result E (Unit {0})

-- mongoStore, with the names of its database and its collection, and its time limit in nanoseconds.
pub record MongoStore (Client : Type 0) : Type 0 where
  pub client : Client
  pub database_name : Text
  pub collection_name : Text
  pub timeout : ℤ

mongo_store : {Client : Type 0} → Client → Database → Text → MongoStore Client
mongo_store client cfg collection = record {
  client = client;
  database_name = cfg.database;
  collection_name = collection;
  timeout = wrap (pos (cfg.timeout * 10 ^ 9));
}

-- The two stores of a configuration: the same database, and a collection each.
abbrev pub AreStores :
    {Client : Type 0} → Database → Client → MongoStore Client → MongoStore Client → Type 0
AreStores cfg client peers records =
    (peers.client ≡ client)
    × (records.client ≡ client)
    × (peers.database_name ≡ cfg.database)
    × (records.database_name ≡ cfg.database)
    × (peers.collection_name ≡ cfg.collection)
    × (records.collection_name ≡ cfg.history_collection)

module _ {E Client : Type 0} (lib : MongoLibrary E Client) where
  -- A client that has reached the database.
  connected : Text → Result E Client
  connected uri = do
    client ← lib.new_client uri
    up ← lib.connect client
    there ← lib.ping client
    ok client

  pub new_peer_store : Database → Result E (MongoStore Client)
  unfolding connected mongo_store
  new_peer_store cfg = do client ← connected cfg.uri; ok (mongo_store client cfg cfg.collection)

  pub new_record_store : Database → Result E (MongoStore Client)
  unfolding connected mongo_store
  new_record_store cfg = do
    client ← connected cfg.uri
    ok (mongo_store client cfg cfg.history_collection)

  -- The driver makes a client for a URI, and this reaches the database.
  abbrev pub IsReachable : Text → Client → Type 0
  IsReachable uri client =
      (lib.new_client uri ≡ ok client) × (lib.connect client ≡ ok tt) × (lib.ping client ≡ ok tt)

  -- Where the URI is reachable, both stores come about.
  pub new_stores_lem :
      (cfg : Database) (client : Client)
      → IsReachable cfg.uri client
      → (peers : MongoStore Client) × (records : MongoStore Client) × (new_peer_store cfg
          ≡ ok peers)
        × (new_record_store cfg ≡ ok records)
        × AreStores cfg client peers records
  unfolding new_peer_store new_record_store connected mongo_store
  new_stores_lem cfg client (c, up, there) = (
    mongo_store client cfg cfg.collection,
    mongo_store client cfg cfg.history_collection,
    rw (c, up, there, new_peer_store, connected) refl,
    rw (c, up, there, new_record_store, connected) refl,
    (refl, refl, refl, refl, refl, refl),
  )
