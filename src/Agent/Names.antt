-- ===== src/Agent/Names.antt =====
-- The name of a client does not depend on the order in which Go's map is walked.
use nodewatch_api.Base.{
  ◌≡◌, refl, sym, ◌∙◌, ap, subst, Bool, true, false, ◌||◌, Option, none, some, List, [], ◌∷◌, map,
  arith, inl, inr, Bool-cases, if◌then◌else◌, All,
}
use nodewatch_api.Base.Text.{Text, split, first_part, text_eq, text_eq_sound}
use nodewatch_api.Agent.{
  ClientName, ClientTable, clients, has_identity, find_client, user_agent, fold, equal_fold,
}
use nodewatch_api.Base.{◌⊎◌}
use mathlib.Core.List.{Perm, Permᴰ}
use mathlib.Core.Logic.{∥∥₁_elim}

-- The client of a text that is already folded, in the order of the list of clients.
owner : ClientTable → Text → Option ClientName
owner [] key = none
owner ((name, identities) ∷ table) key =
    let rest = owner table key in if among identities key then some name else rest
  where
    among : List Text → Text → Bool
    among [] k = false
    among (i ∷ is) k = text_eq (map fold i) k || among is k

-- Each identity of an entry belongs to the entry's client.
abbrev IsOwn : ClientName × List Text → Type 0
IsOwn e = All (λ i. owner clients (map fold i) ≡ some e.0) e.1

clients-IsOwn : All IsOwn clients
unfolding owner fold text_eq
clients-IsOwn = (
  (refl, tt),
  (
    (refl, tt),
    (
      (refl, tt),
      ((refl, tt), ((refl, (refl, tt)), ((refl, tt), ((refl, tt), ((refl, (refl, tt)), tt))))),
    ),
  ),
)

has_identity-owner :
    (name : ClientName) (identities : List Text) (part : Text)
    → IsOwn (name, identities)
    → has_identity part identities ≡ true
    → owner clients (map fold part) ≡ some name
unfolding has_identity equal_fold
has_identity-owner name [] part own h = cc
has_identity-owner name (i ∷ is) part own h =
    elim (Bool-cases (text_eq (map fold i) (map fold part))) [
      | inl same ↦
          ap (owner clients) (sym (text_eq_sound (map fold i) (map fold part) same)) ∙ own.0
      | inr other ↦ has_identity-owner name is part own.1 (rw other at h)
    ]

-- Whether some entry of a table answers to the given name.
known : Text → ClientTable → Bool
known part [] = false
known part ((name, identities) ∷ table) = has_identity part identities || known part table

known-perm : {s t : ClientTable} (part : Text) → Permᴰ s t → known part s ≡ known part t
unfolding known
known-perm part Permᴰ.nil = refl
known-perm part (Permᴰ.cons e p) = cc (known-perm part p)
known-perm part (Permᴰ.swap {l = l} e e') =
    let first = ap (λ (x : ClientName × List Text). has_identity part x.1) e in
    let second = ap (λ (x : ClientName × List Text). has_identity part x.1) e' in ground arith
known-perm part (Permᴰ.trans p q) = known-perm part p ∙ known-perm part q

All-perm {ℓ κ} : {A : Type ℓ} (P : A → Type κ) {xs ys : List A} → Permᴰ xs ys → All P xs → All P ys
All-perm P Permᴰ.nil h = h
All-perm P (Permᴰ.cons e p) h = (subst P e h.0, All-perm P p h.1)
All-perm P (Permᴰ.swap e e') h = (subst P e' h.1.0, (subst P e h.0, h.1.1))
All-perm P (Permᴰ.trans p q) h = All-perm P q (All-perm P p h)

find_client-known :
    (table : ClientTable) (part : Text)
    → All IsOwn table
    → ((known part table ≡ false) × (find_client table part ≡ none))
      ⊎ ((known part table ≡ true) × (find_client table part ≡ owner clients (map fold part)))
unfolding known find_client
find_client-known [] part own = inl (refl, refl)
find_client-known ((name, identities) ∷ table) part own =
    elim (Bool-cases (has_identity part identities)) [
      | inl hit ↦ inr (rw hit, rw hit (sym (has_identity-owner name identities part own.0 hit)))
      | inr miss ↦ rw miss (find_client-known table part own.1)
    ]

find_client-perm :
    {table : ClientTable} (part : Text)
    → Permᴰ clients table
    → find_client table part ≡ find_client clients part
find_client-perm {table} part p =
    let same = known-perm part p in
    elim (find_client-known clients part clients-IsOwn) [
      | inl (k, f) ↦ elim (find_client-known table part (All-perm IsOwn p clients-IsOwn)) [
        | inl (k', f') ↦ f' ∙ sym f
        | inr (k', f') ↦ cc
      ]
      | inr (k, f) ↦ elim (find_client-known table part (All-perm IsOwn p clients-IsOwn)) [
        | inl (k', f') ↦ cc
        | inr (k', f') ↦ f' ∙ sym f
      ]
    ]

ClientName-set : IsSet (Option ClientName)
ClientName-set = hlevel

-- Go walks the map of clients in an unspecified order: in whatever order its entries come, the same
-- agent text gives the same name, version and operating system.
pub user_agent_order :
    (table : ClientTable) (ag : Text)
    → Perm clients table
    → user_agent table ag ≡ user_agent clients ag
unfolding user_agent
user_agent_order table ag p =
    let part = first_part (split b'/' ag) in
    let same : find_client table part ≡ find_client clients part =
      ∥∥₁_elim p (ClientName-set _ _) (find_client-perm part) in
    cc
