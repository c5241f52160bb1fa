-- ===== src/Store/Contract.antt =====
-- What the peer store promises, on any collection that keeps to the driver's documentation.
use nodewatch_api.Base.{
  ℕ, ◌≡◌, sym, ◌∙◌, ◌⊎◌, subst, Option, none, some, arith, inl, inr, ◌==◌, ==_refl, Bool-cases,
  Option-cases, Result-cases,
}
use nodewatch_api.Peer.{Peer}
use nodewatch_api.Store.{
  Collection, CollectionLaws, no_documents, failed, entry, create, update, delete,
}

module _ (c : Collection) (laws : CollectionLaws c) where
  open c use {Db, find_one}
  open laws use {
    view, find_one_ok, find_one_none, insert_one_ok, insert_one_err, replace_one_ok,
    replace_one_err, delete_one_ok, delete_one_err, find_due_ok,
  }

  -- Every peer of the database meets `P`.
  abbrev pub Stored : (Peer → Type 0) → Db → Type 0
  Stored P db = (k : ℕ) (p : Peer) → view db k ≡ some p → P p

  -- An entry of a view is the new one or an old one.
  entry_cases :
      (P : Peer → Type 0) (old : ℕ → Option Peer) (id : ℕ) (q : Peer)
      → P q
      → ((k : ℕ) (p : Peer) → old k ≡ some p → P p)
      → (k : ℕ) (p : Peer) → entry id (some q) old k ≡ some p
      → P p
  entry_cases P old id q hq h k p e = elim (Bool-cases (k == id)) [
    | inl here ↦ let same : q ≡ p = ground arith in subst P same hq
    | inr there ↦ h k p (ground arith)
  ]

  replaced :
      (P : Peer → Type 0) (db : Db) (q : Peer)
      → P q
      → Stored P db
      → (k : ℕ) (p : Peer)
      → (elim (view db q.id) [ none ↦ view db k | some _ ↦ entry q.id (some q) (view db) k ])
        ≡ some p
      → P p
  replaced P db q hq h k p e = elim (Option-cases (view db q.id)) [
    | inl missing ↦ h k p (rw missing at e)
    | inr (old, there) ↦ entry_cases P (view db) q.id q hq h k p (rw there at e)
  ]

  -- An update keeps what all peers meet, whether it succeeds, fails, or is applied and fails.
  pub update-Stored :
      (P : Peer → Type 0) (db : Db) (q : Peer) → P q → Stored P db → Stored P (update c db q).1
  unfolding update
  update-Stored P db q hq h k p e = elim (Option-cases (c.replace_one db q.id q).0) [
    | inl done ↦ replaced P db q hq h k p (sym (replace_one_ok db q.id q k done) ∙ e)
    | inr (x, fault) ↦ elim (replace_one_err db q.id q k x fault) [
      | inl same ↦ h k p (sym same ∙ e)
      | inr applied ↦ replaced P db q hq h k p (sym applied ∙ e)
    ]
  ]

  pub delete-Stored :
      (P : Peer → Type 0) (db : Db) (q : Peer) → Stored P db → Stored P (delete c db q).1
  unfolding delete
  delete-Stored P db q h k p e = elim (Option-cases (c.delete_one db q.id).0) [
    | inr (x, fault) ↦ elim (delete_one_err db q.id k x fault) [
      | inl same ↦ h k p (sym same ∙ e)
      | inr applied ↦ let after = sym applied ∙ e in h k p (ground arith)
    ]
    | inl done ↦ let after = sym (delete_one_ok db q.id k done) ∙ e in h k p (ground arith)
  ]

  insert-Stored :
      (P : Peer → Type 0) (db : Db) (q : Peer) → P q → Stored P db → Stored P (c.insert_one db q).1
  insert-Stored P db q hq h k p e = elim (Option-cases (c.insert_one db q).0) [
    | inr (x, fault) ↦ elim (insert_one_err db q k x fault) [
      | inl same ↦ h k p (sym same ∙ e)
      | inr applied ↦ entry_cases P (view db) q.id q hq h k p (sym applied ∙ e)
    ]
    | inl done ↦ entry_cases P (view db) q.id q hq h k p (sym (insert_one_ok db q k done) ∙ e)
  ]

  -- Create leaves the database as it is, or inserts the peer where none was.
  create_cases :
      (db : Db) (q : Peer)
      → ((create c db q).1 ≡ db)
        ⊎ (((create c db q).1 ≡ (c.insert_one db q).1) × (view db q.id ≡ none))
  unfolding create
  create_cases db q = elim (Result-cases (find_one db q.id)) [
    | inl (p, e) ↦ inl (ground arith)
    | inr (no_documents, e) ↦ inr (ground arith, find_one_none db q.id e)
    | inr (failed, e) ↦ inl (ground arith)
  ]

  pub create-Stored :
      (P : Peer → Type 0) (db : Db) (q : Peer) → P q → Stored P db → Stored P (create c db q).1
  create-Stored P db q hq h = elim (create_cases db q) [
    | inl e ↦ rw e h
    | inr (e, _) ↦ rw e (insert-Stored P db q hq h)
  ]

  entry_kept :
      (db : Db) (q : Peer) (k : ℕ) (p : Peer)
      → view db q.id ≡ none
      → view db k ≡ some p
      → entry q.id (some q) (view db) k ≡ some p
  entry_kept db q k p absent e = elim (Bool-cases (k == q.id)) [
    | inl here ↦ let same : k ≡ q.id = ground arith in cc
    | inr there ↦ rw there e
  ]

  -- Create never changes what is stored already: not the peer's own entry, if it has one, and no other.
  pub create_keeps :
      (db : Db) (q : Peer) (k : ℕ) (p : Peer)
      → view db k ≡ some p
      → view (create c db q).1 k ≡ some p
  create_keeps db q k p e = elim (create_cases db q) [
    | inl same ↦ rw same e
    | inr (inserted, absent) ↦ rw inserted (elim (Option-cases (c.insert_one db q).0) [
      | inl done ↦ insert_one_ok db q k done ∙ entry_kept db q k p absent e
      | inr (x, f) ↦ elim (insert_one_err db q k x f) [
        | inl same ↦ same ∙ e
        | inr applied ↦ applied ∙ entry_kept db q k p absent e
      ]
    ])
  ]

  -- Update does not bring back a peer that was deleted.
  pub update_missing :
      (db : Db) (q : Peer) (k : ℕ) → view db q.id ≡ none → view (update c db q).1 k ≡ view db k
  unfolding update
  update_missing db q k e = elim (Option-cases (c.replace_one db q.id q).0) [
    | inr (x, fault) ↦ elim (replace_one_err db q.id q k x fault) [
      | inl same ↦ same
      | inr applied ↦ rw e at applied
    ]
    | inl done ↦ rw e at (replace_one_ok db q.id q k done)
  ]

  -- What an update and a delete that succeed leave.
  pub update_stored :
      (db : Db) (q old : Peer)
      → view db q.id ≡ some old
      → (c.replace_one db q.id q).0 ≡ none
      → view (update c db q).1 q.id ≡ some q
  unfolding update
  update_stored db q old there done =
      let after = replace_one_ok db q.id q q.id done in rw (there, ==_refl q.id) at after

  pub delete_removed :
      (db : Db) (q : Peer) → (c.delete_one db q.id).0 ≡ none → view (delete c db q).1 q.id ≡ none
  unfolding delete
  delete_removed db q done = rw (==_refl q.id) at (delete_one_ok db q.id q.id done)
