-- ===== src/Store.antt =====
-- store/peerstore/mongo/mongo.go over a collection of the database, and the interface
-- store/peerstore/store.go. The collection is a parameter: its operations, and what the driver
-- documents of them.
pub mod Contract
pub mod Memory
pub mod Queries
pub mod Connect
use nodewatch_api.Base.{
  ℕ, ◌+◌, ◌-◌, ◌≤◌, ◌<◌, ◌≡◌, ◌≢◌, ◌⊎◌, Bool, true, false, ◌&&◌, Option, none, some, List, [], ◌∷◌,
  length, All, ◌==◌, if◌then◌else◌, Result, ok, err,
}
use nodewatch_api.Peer.{Peer}

-- The errors of the driver, ErrNoDocuments and any other, and those of the store.
pub data DbError : Type 0 where
  no_documents failed : DbError

pub data StoreError : Type 0 where
  peer_not_found : StoreError
  db_error : DbError → StoreError

-- A collection of peers, keyed by `_id`.
pub record Collection : Type 1 where
  pub Db : Type 0
  pub find_one : Db → ℕ → Result DbError Peer
  pub insert_one : Db → Peer → Option DbError × Db
  pub replace_one : Db → ℕ → Peer → Option DbError × Db
  pub delete_one : Db → ℕ → Option DbError × Db
  -- The documents with `last_updated` below the first number, the longest unseen first, at most as
  -- many as the second, unless that is 0.
  pub find_due : Db → ℕ → ℕ → Result DbError (List Peer)

-- An update of one entry of a view.
abbrev pub entry {ℓ} : {A : Type ℓ} → ℕ → A → (ℕ → A) → ℕ → A
entry key value view k = if k == key then value else view k

-- What the driver documents, for a view of the database as a map from IDs to peers. A write that
-- returns an error may have been applied all the same, as after a time limit; ReplaceOne without an
-- upsert replaces a document that is there; a limit of 0 is no limit.
pub record CollectionLaws (c : Collection) : Type 0 where
  pub view : c.Db → ℕ → Option Peer
  pub find_one_ok : (db : c.Db) (id : ℕ) (p : Peer) → c.find_one db id ≡ ok p → view db id ≡ some p
  pub find_one_none : (db : c.Db) (id : ℕ) → c.find_one db id ≡ err no_documents → view db id ≡ none
  pub insert_one_ok :
      (db : c.Db) (p : Peer) (k : ℕ)
      → (c.insert_one db p).0 ≡ none
      → view (c.insert_one db p).1 k ≡ entry p.id (some p) (view db) k
  pub insert_one_err :
      (db : c.Db) (p : Peer) (k : ℕ) (e : DbError)
      → (c.insert_one db p).0 ≡ some e
      → (view (c.insert_one db p).1 k ≡ view db k)
        ⊎ (view (c.insert_one db p).1 k ≡ entry p.id (some p) (view db) k)
  pub replace_one_ok :
      (db : c.Db) (id : ℕ) (p : Peer) (k : ℕ)
      → (c.replace_one db id p).0 ≡ none
      → view (c.replace_one db id p).1 k
        ≡ (elim (view db id) [ none ↦ view db k | some _ ↦ entry id (some p) (view db) k ])
  pub replace_one_err :
      (db : c.Db) (id : ℕ) (p : Peer) (k : ℕ) (e : DbError)
      → (c.replace_one db id p).0 ≡ some e
      → (view (c.replace_one db id p).1 k ≡ view db k)
        ⊎ (view (c.replace_one db id p).1 k
            ≡ (elim (view db id) [ none ↦ view db k | some _ ↦ entry id (some p) (view db) k ]))
  pub delete_one_ok :
      (db : c.Db) (id k : ℕ)
      → (c.delete_one db id).0 ≡ none
      → view (c.delete_one db id).1 k ≡ entry id none (view db) k
  pub delete_one_err :
      (db : c.Db) (id k : ℕ) (e : DbError)
      → (c.delete_one db id).0 ≡ some e
      → (view (c.delete_one db id).1 k ≡ view db k)
        ⊎ (view (c.delete_one db id).1 k ≡ entry id none (view db) k)
  pub find_due_ok :
      (db : c.Db) (before limit : ℕ) (ps : List Peer)
      → c.find_due db before limit ≡ ok ps
      → All (λ p. (view db p.id ≡ some p) × (p.last_updated < before)) ps
        × (limit ≢ 0 → length ps ≤ limit)

-- The error of a driver's call, as the store returns it.
abbrev pub store_error : Option DbError → Option StoreError
store_error none = none
store_error (some e) = some (db_error e)

module _ (c : Collection) where
  open c use {Db, find_one, insert_one, replace_one, delete_one, find_due}

  -- View: a missing document is the store's own error.
  pub view_peer : Db → ℕ → Result StoreError Peer
  view_peer db id = elim (find_one db id) [
    | ok p ↦ ok p
    | err no_documents ↦ err peer_not_found
    | err e ↦ err (db_error e)
  ]

  -- Create: a peer that is there already is left as it is.
  pub create : Db → Peer → Option StoreError × Db
  unfolding view_peer
  create db p = elim (view_peer db p.id) [
    | ok q ↦ (none, db)
    | err peer_not_found ↦ let (e, db') = insert_one db p in (store_error e, db')
    | err e ↦ (some e, db)
  ]

  -- Update
  pub update : Db → Peer → Option StoreError × Db
  update db p = let (e, db') = replace_one db p.id p in (store_error e, db')

  -- Delete
  pub delete : Db → Peer → Option StoreError × Db
  delete db p = let (e, db') = delete_one db p.id in (store_error e, db')

  -- ListForJob at time `now`: what was updated longer ago than `last_updated` seconds.
  unfoldable pub list_for_job : Db → ℕ → ℕ → ℕ → Result DbError (List Peer)
  list_for_job db now last_updated limit = find_due db (now - last_updated) limit
