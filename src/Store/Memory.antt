-- ===== src/Store/Memory.antt =====
-- A collection in memory, a list of peers of which the first with an ID counts. It shows that the laws of
-- a collection can hold, and the examples run on it.
use nodewatch_api.Base.{
  ℕ, zero, suc, ◌≤◌, ◌<◌, ◌≡◌, ◌≢◌, ◌⊎◌, refl, ◌∙◌, subst, Bool, true, false, ◌||◌, Option, none,
  some, List, [], ◌∷◌, length, take, All, All-weaken, arith, inl, inr, if◌then◌else◌, ◌==◌, ltb,
  ltb→lt, Bool-cases, Result, ok, err,
}
use nodewatch_api.Peer.{Peer}
use nodewatch_api.Store.{Collection, CollectionLaws, DbError, no_documents, failed, entry}

unfoldable pub lookup : List Peer → ℕ → Option Peer
lookup [] id = none
lookup (p ∷ ps) id = if id == p.id then some p else lookup ps id

pub lookup_one : List Peer → ℕ → Result DbError Peer
unfolding lookup
lookup_one ps id = elim (lookup ps id) [ none ↦ err no_documents | some p ↦ ok p ]

pub insert : List Peer → Peer → Option DbError × List Peer
unfolding lookup
insert ps p = elim (lookup ps p.id) [ none ↦ (none, p ∷ ps) | some _ ↦ (some failed, ps) ]

replace : List Peer → ℕ → Peer → List Peer
replace [] id q = []
replace (p ∷ ps) id q = if id == p.id then q ∷ ps else p ∷ replace ps id q

remove : List Peer → ℕ → List Peer
remove [] id = []
remove (p ∷ ps) id = if id == p.id then remove ps id else p ∷ remove ps id

is_in : ℕ → List ℕ → Bool
is_in k [] = false
is_in k (x ∷ xs) = (k == x) || is_in k xs

-- The peers that count, but for those whose ID is among `seen`, and updated before `before`.
fresh : ℕ → List ℕ → List Peer → List Peer
unfolding is_in
fresh before seen [] = []
fresh before seen (p ∷ ps) =
    let rest = fresh before (p.id ∷ seen) ps in
    if is_in p.id seen
    then fresh before seen ps
    else if ltb p.last_updated before
    then p ∷ rest
    else rest

put_in : Peer → List Peer → List Peer
put_in p [] = p ∷ []
put_in p (q ∷ qs) = if ltb q.last_updated p.last_updated then q ∷ put_in p qs else p ∷ q ∷ qs

sort : List Peer → List Peer
unfolding put_in
sort [] = []
sort (p ∷ ps) = put_in p (sort ps)

pub due : List Peer → ℕ → ℕ → List Peer
unfolding fresh sort
due ps before limit =
    let all = sort (fresh before [] ps) in if limit == 0 then all else take limit all

put_in-All : (P : Peer → Type 0) (p : Peer) (ps : List Peer) → P p → All P ps → All P (put_in p ps)
unfolding put_in
put_in-All P p [] h hs = (h, tt)
put_in-All P p (q ∷ qs) h hs = elim (Bool-cases (ltb q.last_updated p.last_updated)) [
  | inl e ↦ rw e (hs.0, put_in-All P p qs h hs.1)
  | inr e ↦ rw e (h, (hs.0, hs.1))
]

sort-All : (P : Peer → Type 0) (ps : List Peer) → All P ps → All P (sort ps)
unfolding sort
sort-All P [] h = h
sort-All P (p ∷ ps) h = put_in-All P p (sort ps) h.0 (sort-All P ps h.1)

take-All : (P : Peer → Type 0) (n : ℕ) (ps : List Peer) → All P ps → All P (take n ps)
take-All P zero ps h = tt
take-All P (suc n) [] h = tt
take-All P (suc n) (p ∷ ps) h = (h.0, take-All P n ps h.1)

length-take_le : (n : ℕ) (ps : List Peer) → length (take n ps) ≤ n
length-take_le zero ps = ground arith
length-take_le (suc n) [] = ground arith
length-take_le (suc n) (p ∷ ps) = ground (arith, length-take_le n ps)

other : (seen : List ℕ) (i j : ℕ) → is_in i seen ≡ true → is_in j seen ≡ false → (j == i) ≡ false
other seen i j h k = elim (Bool-cases (j == i)) [
  | inl same ↦ let same' : j ≡ i = ground arith in cc
  | inr e ↦ e
]

abbrev Fresh : ℕ → List ℕ → List Peer → Peer → Type 0
Fresh before seen ps q =
    (is_in q.id seen ≡ false) × (lookup ps q.id ≡ some q) × (q.last_updated < before)

lookup_first : (p : Peer) (ps : List Peer) → lookup (p ∷ ps) p.id ≡ some p
unfolding lookup
lookup_first p ps = ground arith

lookup_later :
    (p : Peer) (ps : List Peer) (k : ℕ) → (k == p.id) ≡ false → lookup (p ∷ ps) k ≡ lookup ps k
unfolding lookup
lookup_later p ps k e = ground arith

fresh-Fresh :
    (before : ℕ) (seen : List ℕ) (ps : List Peer)
    → All (Fresh before seen ps) (fresh before seen ps)
unfolding fresh is_in
fresh-Fresh before seen [] = tt
fresh-Fresh before seen (p ∷ ps) =
    let rest = fresh-Fresh before (p.id ∷ seen) ps in
    let skipped = fresh-Fresh before seen ps in
    let later : All (Fresh before seen (p ∷ ps)) (fresh before (p.id ∷ seen) ps) =
      All-weaken _ _ (λ q h. (ground arith, lookup_later p ps q.id (ground arith) ∙ h.1, h.2))
        (fresh before (p.id ∷ seen) ps) rest in
    elim (Bool-cases (is_in p.id seen)) [
      | inl known ↦
          rw (known, fresh)
            (All-weaken (Fresh before seen ps) (Fresh before seen (p ∷ ps))
              (λ q h. (h.0, lookup_later p ps q.id (other seen p.id q.id known h.0) ∙ h.1, h.2))
              (fresh before seen ps) skipped)
      | inr new ↦
          rw (new, fresh)
            (elim (Bool-cases (ltb p.last_updated before)) [
              | inl early ↦
                  rw early ((new, lookup_first p ps, ltb→lt p.last_updated before early), later)
              | inr late ↦ rw late later
            ])
    ]

pub memory_due : List Peer → ℕ → ℕ → Result DbError (List Peer)
memory_due ps before limit = ok (due ps before limit)

unfoldable pub delete_one : List Peer → ℕ → Option DbError × List Peer
unfolding remove
delete_one ps id = (none, remove ps id)

is_zero : (n : ℕ) → (n == 0) ≡ true → n ≡ 0
is_zero n h = ground arith

pub due_lem :
    (ps : List Peer) (before limit : ℕ)
    → All (λ p. (lookup ps p.id ≡ some p) × (p.last_updated < before)) (due ps before limit)
      × (limit ≢ 0 → length (due ps before limit) ≤ limit)
unfolding due
due_lem ps before limit =
    let found = sort-All _ (fresh before [] ps) (fresh-Fresh before [] ps) in
    let met : All (λ p. (lookup ps p.id ≡ some p) × (p.last_updated < before))
        (sort (fresh before [] ps)) =
      All-weaken _ _ (λ q h. (h.1, h.2)) (sort (fresh before [] ps)) found in
    elim (Bool-cases (limit == 0)) [
      | inl all ↦ rw (all, due) (met, λ n. absurd (n (is_zero limit all)))
      | inr some_ ↦
          rw (some_, due)
            (take-All _ limit _ met, λ n. length-take_le limit (sort (fresh before [] ps)))
    ]

replace_lem :
    (ps : List Peer) (id : ℕ) (q : Peer) (k : ℕ)
    → q.id ≡ id
    → lookup (replace ps id q) k
      ≡ (elim (lookup ps id) [ none ↦ lookup ps k | some _ ↦ entry id (some q) (lookup ps) k ])
unfolding lookup replace
replace_lem [] id q k h = refl
replace_lem (p ∷ ps) id q k h = ground (arith, replace_lem ps id q k h)

remove_lem : (ps : List Peer) (id k : ℕ) → lookup (remove ps id) k ≡ entry id none (lookup ps) k
unfolding lookup remove
remove_lem [] id k = ground arith
remove_lem (p ∷ ps) id k = ground (arith, remove_lem ps id k)

pub insert_lem :
    (ps : List Peer) (p : Peer) (k : ℕ)
    → (insert ps p).0 ≡ none
    → lookup (insert ps p).1 k ≡ entry p.id (some p) (lookup ps) k
unfolding lookup insert
insert_lem ps p k h = ground arith

pub insert_err_lem :
    (ps : List Peer) (p : Peer) (k : ℕ) (e : DbError)
    → (insert ps p).0 ≡ some e
    → (lookup (insert ps p).1 k ≡ lookup ps k)
      ⊎ (lookup (insert ps p).1 k ≡ entry p.id (some p) (lookup ps) k)
unfolding insert
insert_err_lem ps p k e h = inl (ground arith)

-- The ID of a document cannot be changed.
unfoldable pub replace_one : List Peer → ℕ → Peer → Option DbError × List Peer
unfolding replace
replace_one ps id q = if id == q.id then (none, replace ps id q) else (some failed, ps)

pub replace_one_lem :
    (ps : List Peer) (id : ℕ) (q : Peer) (k : ℕ)
    → (replace_one ps id q).0 ≡ none
    → lookup (replace_one ps id q).1 k
      ≡ (elim (lookup ps id) [ none ↦ lookup ps k | some _ ↦ entry id (some q) (lookup ps) k ])
unfolding replace_one
replace_one_lem ps id q k h = elim (Bool-cases (id == q.id)) [
  | inl e ↦ rw e (replace_lem ps id q k (ground arith))
  | inr e ↦ ground arith
]

pub replace_one_err_lem :
    (ps : List Peer) (id : ℕ) (q : Peer) (k : ℕ) (e : DbError)
    → (replace_one ps id q).0 ≡ some e
    → (lookup (replace_one ps id q).1 k ≡ lookup ps k)
      ⊎ (lookup (replace_one ps id q).1 k
          ≡ (elim (lookup ps id) [ none ↦ lookup ps k | some _ ↦ entry id (some q) (lookup ps) k ]))
unfolding replace_one
replace_one_err_lem ps id q k e h = inl (ground arith)

-- The collection.
abbrev pub memory : Collection
memory = record {
  Db = List Peer;
  find_one = lookup_one;
  insert_one = insert;
  replace_one = replace_one;
  delete_one = delete_one;
  find_due = memory_due;
}

pub lookup_one_lem :
    (ps : List Peer) (id : ℕ) (p : Peer) → lookup_one ps id ≡ ok p → lookup ps id ≡ some p
unfolding lookup_one
lookup_one_lem ps id p h = ground arith

pub lookup_one_none_lem :
    (ps : List Peer) (id : ℕ) → lookup_one ps id ≡ err no_documents → lookup ps id ≡ none
unfolding lookup_one
lookup_one_none_lem ps id h = ground arith

pub delete_one_lem :
    (ps : List Peer) (id k : ℕ)
    → (delete_one ps id).0 ≡ none
    → lookup (delete_one ps id).1 k ≡ entry id none (lookup ps) k
unfolding delete_one
delete_one_lem ps id k h = remove_lem ps id k

pub delete_one_err_lem :
    (ps : List Peer) (id k : ℕ) (e : DbError)
    → (delete_one ps id).0 ≡ some e
    → (lookup (delete_one ps id).1 k ≡ lookup ps k)
      ⊎ (lookup (delete_one ps id).1 k ≡ entry id none (lookup ps) k)
unfolding delete_one
delete_one_err_lem ps id k e h = inl (ground arith)

pub due_ok_lem :
    (ps : List Peer) (before limit : ℕ) (qs : List Peer)
    → memory_due ps before limit ≡ ok qs
    → All (λ p. (lookup ps p.id ≡ some p) × (p.last_updated < before)) qs
      × (limit ≢ 0 → length qs ≤ limit)
unfolding memory_due
due_ok_lem ps before limit qs h =
    let same : due ps before limit ≡ qs = ground arith in
    subst
      (λ x.
        All (λ p. (lookup ps p.id ≡ some p) × (p.last_updated < before)) x
        × (limit ≢ 0 → length x ≤ limit))
      same (due_lem ps before limit)

abbrev pub memory_laws : CollectionLaws memory
memory_laws = record {
  view = lookup;
  find_one_ok = lookup_one_lem;
  find_one_none = lookup_one_none_lem;
  insert_one_ok = insert_lem;
  insert_one_err = insert_err_lem;
  replace_one_ok = replace_one_lem;
  replace_one_err = replace_one_err_lem;
  delete_one_ok = delete_one_lem;
  delete_one_err = delete_one_err_lem;
  find_due_ok = due_ok_lem;
}
