-- ===== src/Graph/Groups/Bags.antt =====
-- The groups as a bag, which forgets the order in which Go walks the map and that of the peers.
use nodewatch_api.Base.{
  ℕ, ◌≤◌, ◌≡◌, refl, sym, ◌∙◌, ap, Bool, true, false, List, [], ◌∷◌, ◌++◌, append_assoc, tally,
  arith, Bool-cases, inl, inr, if◌then◌else◌, ◌==◌,
}
use nodewatch_api.Base.Text.{Text, codes, Lacks, text_eq, text_eq_sound, text_eq_refl}
use nodewatch_api.Peer.{Peer}
use nodewatch_api.Graph.{Aggregation, key_of, add_peer, groups_from}
use nodewatch_api.Graph.Groups.{count_of, add_peer-count_of}

-- The parts of a key.
pub before_dash : Text → Text
before_dash [] = []
before_dash (c ∷ cs) = if c == b'-' then [] else c ∷ before_dash cs

pub behind_dash : Text → Text
behind_dash [] = []
behind_dash (c ∷ cs) = if c == b'-' then cs else behind_dash cs

before_dash-append : (v e : Text) → Lacks b'-' v → before_dash (v ++ b'-' ∷ e) ≡ v
unfolding before_dash
before_dash-append [] e h = refl
before_dash-append (c ∷ v) e h = ground (arith, before_dash-append v e h.1)

behind_dash-append : (v e : Text) → Lacks b'-' v → behind_dash (v ++ b'-' ∷ e) ≡ e
unfolding behind_dash
behind_dash-append [] e h = refl
behind_dash-append (c ∷ v) e h = ground (arith, behind_dash-append v e h.1)

abbrev pub values : List (Text × Aggregation) → List Aggregation
values [] = []
values ((k, a) ∷ groups) = a ∷ values groups

-- The group of a key with a count.
abbrev pub entry : Text → ℕ → Aggregation
entry k n = record { version = before_dash k; epoch = behind_dash k; count = n }

-- Each group is that of its key, counts a peer, and is the only one of its key.
abbrev pub IsGrouped : List (Text × Aggregation) → Type 0
IsGrouped [] = Unit {0}
IsGrouped ((k, a) ∷ groups) =
    (a ≡ entry k a.count) × (1 ≤ a.count) × (count_of k groups ≡ 0) × IsGrouped groups

text_eq_sym : (a b : Text) → text_eq a b ≡ true → text_eq b a ≡ true
text_eq_sym a b h = let e = text_eq_sound a b h in let r = text_eq_refl a in cc

text_ne_sym : (a b : Text) → text_eq a b ≡ false → text_eq b a ≡ false
text_ne_sym a b h = elim (Bool-cases (text_eq b a)) [
  | inr e ↦ e
  | inl e ↦ let f = text_eq_sym b a e in cc
]

tally_cons :
    (q : Aggregation → Bool) (x : Aggregation) (xs ys : List Aggregation)
    → tally q xs ≡ tally q ys
    → tally q (x ∷ xs) ≡ tally q (x ∷ ys)
tally_cons q x xs ys h = ground arith

-- The groups but that of a key.
remove : Text → List (Text × Aggregation) → List (Text × Aggregation)
remove k [] = []
remove k ((j, a) ∷ groups) = if text_eq j k then groups else (j, a) ∷ remove k groups

count_of-remove :
    (k key : Text) (groups : List (Text × Aggregation))
    → IsGrouped groups
    → count_of key (remove k groups) ≡ (if text_eq k key then 0 else count_of key groups)
unfolding count_of remove
count_of-remove k key [] h = ground arith
count_of-remove k key ((j, a) ∷ groups) (same, some_, only, rest) =
    let later = count_of-remove k key groups rest in
    elim (Bool-cases (text_eq j k)) [
      | inl here ↦
          let e = text_eq_sound j k here in
          let only' : count_of k groups ≡ 0 = ap (λ t. count_of t groups) (sym e) ∙ only in
          elim (Bool-cases (text_eq k key)) [
            | inl it ↦
                let f = text_eq_sound k key it in
                let gone : count_of key groups ≡ 0 = ap (λ t. count_of t groups) (sym f) ∙ only' in
                rw (here, it, remove) gone
            | inr apart ↦
                let apart' : text_eq j key ≡ false = ap (λ t. text_eq t key) e ∙ apart in
                rw (here, apart, remove) (rw (apart', count_of) refl)
          ]
      | inr there ↦ elim (Bool-cases (text_eq k key)) [
        | inl it ↦
            let f = text_eq_sound k key it in
            let apart : text_eq j key ≡ false = ap (λ t. text_eq j t) (sym f) ∙ there in
            rw (there, it, remove) (rw (apart, count_of) (ground (arith, later)))
        | inr apart ↦ rw (there, apart, remove) (ground (arith, later))
      ]
    ]

remove-IsGrouped :
    (k : Text) (groups : List (Text × Aggregation)) → IsGrouped groups → IsGrouped (remove k groups)
unfolding remove
remove-IsGrouped k [] h = tt
remove-IsGrouped k ((j, a) ∷ groups) (same, some_, only, rest) = elim (Bool-cases (text_eq j k)) [
  | inl here ↦ rw (here, remove) rest
  | inr there ↦
      let later = count_of-remove k j groups rest in
      rw (there, remove)
        (same, some_, ground (arith, later, text_ne_sym j k there), remove-IsGrouped k groups rest)
]

-- A group that is taken out is that of its key with its count.
tally-remove :
    (q : Aggregation → Bool) (k : Text) (groups : List (Text × Aggregation))
    → IsGrouped groups
    → 1 ≤ count_of k groups
    → tally q (values groups) ≡ tally q (entry k (count_of k groups) ∷ values (remove k groups))
unfolding count_of remove
tally-remove q k [] h n = absurd (omega arith)
tally-remove q k ((j, a) ∷ groups) (same, some_, only, rest) n = elim (Bool-cases (text_eq j k)) [
  | inl here ↦
      let e = text_eq_sound j k here in
      let that : a ≡ entry k a.count = same ∙ ap (λ t. entry t a.count) e in
      rw (here, remove, count_of) (ap (λ x. tally q (x ∷ values groups)) that)
  | inr there ↦
      let n' : 1 ≤ count_of k groups = ground arith in
      let later = tally-remove q k groups rest n' in
      rw (there, remove, count_of) (ground (arith, later))
]

-- Two lists of groups that count the same are the same bag.
pub same_tally :
    (q : Aggregation → Bool) (gs hs : List (Text × Aggregation))
    → IsGrouped gs
    → IsGrouped hs
    → ((k : Text) → count_of k gs ≡ count_of k hs)
    → tally q (values gs) ≡ tally q (values hs)
unfolding count_of
same_tally q [] [] g h e = refl
same_tally q [] ((k, a) ∷ hs) g (same, some_, only, rest) e =
    let none_ = e k in let r = text_eq_refl k in absurd (ground arith)
same_tally q ((k, a) ∷ gs) hs (same, some_, only, rest) h e =
    let r = text_eq_refl k in
    let n : a.count ≡ count_of k hs = ground (arith, e k) in
    let out = tally-remove q k hs h (omega arith) in
    let later = same_tally q gs (remove k hs) rest (remove-IsGrouped k hs h) (λ key.
      elim (Bool-cases (text_eq k key)) [
        | inl it ↦
            let f = text_eq_sound k key it in
            let gone : count_of key gs ≡ 0 = ap (λ t. count_of t gs) (sym f) ∙ only in
            let gone' = count_of-remove k key hs h in ground arith
        | inr apart ↦ let kept = count_of-remove k key hs h in ground (arith, e key)
      ]) in
    let that : a ≡ entry k (count_of k hs) = same ∙ ap (entry k) n in
    ap (λ x. tally q (x ∷ values gs)) that
    ∙ tally_cons q (entry k (count_of k hs)) (values gs) (values (remove k hs)) later
    ∙ sym out

module _ (version_text : Text → Text) (epoch_text : ℕ → Text)
    (no_dash : (v : Text) → Lacks b'-' (version_text v)) where
  key_of-parts :
      (p : Peer)
      → let k = key_of version_text epoch_text p in
        (before_dash k ≡ version_text p.next_fork_version)
        × (behind_dash k ≡ epoch_text p.next_fork_epoch)
  unfolding key_of
  key_of-parts p =
      let v = version_text p.next_fork_version in
      let e = epoch_text p.next_fork_epoch in
      let whole = append_assoc v (codes "-") e in
      (
        ap before_dash whole ∙ before_dash-append v e (no_dash p.next_fork_version),
        ap behind_dash whole ∙ behind_dash-append v e (no_dash p.next_fork_version),
      )

  add_peer-IsGrouped :
      (p : Peer) (groups : List (Text × Aggregation))
      → IsGrouped groups
      → IsGrouped (add_peer version_text epoch_text p groups)
  unfolding add_peer count_of
  add_peer-IsGrouped p [] h = let (b, e) = key_of-parts p in (ground arith, omega arith, refl, tt)
  add_peer-IsGrouped p ((k, a) ∷ groups) (same, some_, only, rest) =
      elim (Bool-cases (text_eq k (key_of version_text epoch_text p))) [
        | inl here ↦ rw (here, add_peer) (ground arith, omega arith, only, rest)
        | inr there ↦
            let other = text_ne_sym k (key_of version_text epoch_text p) there in
            let counted = add_peer-count_of version_text epoch_text k p groups in
            let later = add_peer-IsGrouped p groups rest in
            rw (there, add_peer) (same, some_, ground (arith, counted), later)
      ]

  pub groups_from-IsGrouped :
      (groups : List (Text × Aggregation)) (ps : List Peer)
      → IsGrouped groups
      → IsGrouped (groups_from version_text epoch_text groups ps)
  unfolding groups_from
  groups_from-IsGrouped groups [] h = h
  groups_from-IsGrouped groups (p ∷ ps) h =
      groups_from-IsGrouped (add_peer version_text epoch_text p groups) ps
        (add_peer-IsGrouped p groups h)
