-- ===== src/Crawl/Updates.antt =====
-- What an update of a peer leaves in the database.
use nodewatch_api.Base.{
  ℕ, ◌≡◌, refl, sym, subst, ◌∙◌, true, false, none, some, [], ◌∷◌, ◌++◌, arith, ◌⊎◌, inl, inr, ap,
}
use nodewatch_api.Base.Int.{ℤ, pos, ◌-ℤ◌, leb_ℤ}
use nodewatch_api.Base.Text.{Text}
use nodewatch_api.Agent.{ClientTable}
use nodewatch_api.Peer.{Peer, set_connection_status, score_good, score_bad}
use nodewatch_api.Store.{Collection, CollectionLaws, update, delete}
use nodewatch_api.Store.Contract.{update_stored, delete_removed}
use nodewatch_api.Crawl.{
  Crawler, Work, collect_node_info, reached, peer_output, finish, update_peer_info,
}
use nodewatch_api.Crawl.Attempts.{collect-Keeps}

lowered_bad :
    (x y : ℤ) → leb_ℤ x (pos 1) ≡ true → (y ≡ x) ⊎ (y ≡ pos 0) → leb_ℤ (y -ℤ pos 1) score_bad ≡ true
unfolding ◌-ℤ◌
lowered_bad x y h (inl e) = ground arith
lowered_bad x y h (inr e) = rw e refl

module _ (c : Collection) (laws : CollectionLaws c) where
  open c use {Db}
  open laws use {view}

  finish_bad :
      (q : Peer) (s : Crawler Db)
      → leb_ℤ q.score score_bad ≡ true
      → ((finish c q s).db ≡ (delete c s.db q).1) × ((finish c q s).written ≡ s.written)
  unfolding finish
  finish_bad q s e = rw e (refl, refl)

  finish_good :
      (q : Peer) (s : Crawler Db)
      → leb_ℤ q.score score_bad ≡ false
      → ((finish c q s).db ≡ (update c s.db q).1) × ((finish c q s).written ≡ s.written)
  unfolding finish
  finish_good q s e = rw e (refl, refl)

  module _ (digest_text : Text → Text) (table : ClientTable) (uuid_of : ℕ → ℕ → Text) where
    -- A peer that was not reached, and has no more score to lose, is deleted: if the database does
    -- delete it, it is not there afterwards, and nothing is written.
    pub update_peer_info_removes :
        (retries : ℕ) (w : Work) (p : Peer) (s : Crawler Db)
        → (collect_node_info digest_text table retries 0 w.attempts p).0 ≡ false
        → leb_ℤ p.score (pos 1) ≡ true
        → (c.delete_one s.db p.id).0 ≡ none
        → let s' = update_peer_info c digest_text table uuid_of retries w p s in
          (view s'.db p.id ≡ none) × (s'.written ≡ s.written)
    unfolding update_peer_info
    update_peer_info_removes retries w p s fault low done =
        let p' = (collect_node_info digest_text table retries 0 w.attempts p).1 in
        let kept = collect-Keeps digest_text table retries 0 w.attempts p in
        let q : Peer = record p' { score = p'.score -ℤ pos 1 } in
        let bad = lowered_bad p.score p'.score low kept.3 in
        let (db', out) = finish_bad q s bad in
        let gone = delete_removed c laws s.db q (rw kept.0 done) in
        rw (fault, update_peer_info)
          (ap (λ d. view d p.id) db' ∙ ap (view (delete c s.db q).1) (sym kept.0) ∙ gone, out)

    -- A peer that was reached and is in the database, which takes the update, is there afterwards as
    -- connectable and with the best score, and is written to the output once.
    pub update_peer_info_stores :
        (retries : ℕ) (w : Work) (p old : Peer) (s : Crawler Db)
        → let (collected, p') = collect_node_info digest_text table retries 0 w.attempts p in
          collected ≡ true
          → view s.db p.id ≡ some old
          → (c.replace_one s.db p.id (reached w p')).0 ≡ none
          → let s' = update_peer_info c digest_text table uuid_of retries w p s in
            (q : Peer) × (view s'.db p.id ≡ some q)
            × (q.is_connectable ≡ true)
            × (q.score ≡ score_good)
            × (s'.written ≡ s.written ++ peer_output c digest_text table uuid_of w q ∷ [])
    unfolding update_peer_info
    update_peer_info_stores retries w p old s done there taken =
        let p' = (collect_node_info digest_text table retries 0 w.attempts p).1 in
        let kept = collect-Keeps digest_text table retries 0 w.attempts p in
        let q = reached w p' in
        let same : q.id ≡ p.id = unfold reached set_connection_status in kept.0 in
        let s1 : Crawler Db = record s {
          written = s.written ++ peer_output c digest_text table uuid_of w q ∷ [];
        } in
        let good : (q.score ≡ score_good) × (q.is_connectable ≡ true) =
          unfold reached set_connection_status in (refl, refl) in
        let (db', out) = finish_good q s1 (unfold reached set_connection_status in refl) in
        let stored =
          update_stored c laws s.db q old (subst (λ i. view s.db i ≡ some old) (sym same) there)
            (subst (λ i. (c.replace_one s.db i q).0 ≡ none) (sym same) taken) in
        (
          q,
          rw (done, update_peer_info)
              (ap (λ d. view d p.id) db' ∙ ap (view (update c s.db q).1) (sym same) ∙ stored),
          good.1,
          good.0,
          rw (done, update_peer_info) out,
        )
