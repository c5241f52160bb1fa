-- ===== src/Crawl/Walk/Order.antt =====
-- What start has stored, in order, and that it comes to an end.
use nodewatch_api.Base.{
  ℕ, ◌+◌, ◌*◌, ◌<◌, ◌≡◌, ◌≢◌, ◌⊎◌, inl, inr, refl, sym, ◌∙◌, ap, subst, Bool, true, false, List, [],
  ◌∷◌, ◌++◌, length, append_assoc, append-nil, arith,
}
use nodewatch_api.Crawl.Walk.{
  Walker, asking, finishing, finished, offering, Walk, new_walk, Step, cancel, next, no_next,
  hand_over, see_end, finish, Steps, here, then_step,
}

module _ {Node : Type 0} where
  -- The node that runIterator holds.
  abbrev pub in_hand : Walker Node → List Node
  in_hand (offering n) = n ∷ []
  in_hand asking = []
  in_hand finishing = []
  in_hand finished = []

  abbrev pub is_over : Walker Node → Bool
  is_over (offering n) = false
  is_over asking = false
  is_over finishing = true
  is_over finished = true

  -- While the walk goes on, what was stored, the node in hand and those ahead are all nodes; once it is
  -- over, what was stored is a front of them, and all of them unless the context was done. And start has
  -- returned just when all is finished.
  pub record IsOrdered (nodes : List Node) (s : Walk Node) : Type 0 where
    pub going : is_over s.walker ≡ false → s.stored ++ (in_hand s.walker ++ s.ahead) ≡ nodes
    pub rest : List Node
    pub front : is_over s.walker ≡ true → s.stored ++ rest ≡ nodes
    pub complete : is_over s.walker ≡ true → s.cancelled ≡ false → s.stored ≡ nodes
    pub open_ : s.walker ≢ finished → s.returned ≡ false

  -- The nodes in the two places where the walk goes on.
  asked :
      {nodes : List Node} (s : Walk Node) (ns : List Node)
      → s.walker ≡ asking
      → s.ahead ≡ ns
      → IsOrdered nodes s
      → s.stored ++ ns ≡ nodes
  asked s ns a e h =
      sym (ap (λ l. s.stored ++ l) e)
      ∙ sym (ap (λ w. s.stored ++ (in_hand w ++ s.ahead)) a)
      ∙ h.going (ap is_over a)

  with_hand :
      {nodes : List Node} (s : Walk Node) (n : Node)
      → s.walker ≡ offering n
      → IsOrdered nodes s
      → s.stored ++ n ∷ s.ahead ≡ nodes
  with_hand s n w h = sym (ap (λ v. s.stored ++ (in_hand v ++ s.ahead)) w) ∙ h.going (ap is_over w)

  all_stored :
      {nodes : List Node} (s : Walk Node)
      → s.walker ≡ asking
      → s.ahead ≡ []
      → IsOrdered nodes s
      → s.stored ≡ nodes
  all_stored s a e h = sym (append-nil s.stored) ∙ asked s [] a e h

  Step-IsOrdered :
      (nodes : List Node) {s t : Walk Node} → Step s t → IsOrdered nodes s → IsOrdered nodes t
  Step-IsOrdered nodes (cancel s) h = record {
    going = h.going;
    rest = h.rest;
    front = h.front;
    complete = λ o c. cc;
    open_ = h.open_;
  }
  Step-IsOrdered nodes (next s n ns a e) h = record {
    going = λ o. asked s (n ∷ ns) a e h;
    rest = [];
    front = λ o. cc;
    complete = λ o c. cc;
    open_ = λ f. h.open_ (λ g. cc);
  }
  Step-IsOrdered nodes (no_next s a e) h = record {
    going = λ o. cc;
    rest = [];
    front = λ o. append-nil s.stored ∙ all_stored s a e h;
    complete = λ o c. all_stored s a e h;
    open_ = λ f. h.open_ (λ g. cc);
  }
  Step-IsOrdered nodes (hand_over s n w r) h = record {
    going = λ o. append_assoc s.stored (n ∷ []) s.ahead ∙ with_hand s n w h;
    rest = [];
    front = λ o. cc;
    complete = λ o c. cc;
    open_ = λ f. h.open_ (λ g. cc);
  }
  Step-IsOrdered nodes (see_end s n w c) h = record {
    going = λ o. cc;
    rest = n ∷ s.ahead;
    front = λ o. with_hand s n w h;
    complete = λ o c'. cc;
    open_ = λ f. h.open_ (λ g. cc);
  }
  Step-IsOrdered nodes (finish s w r) h = record {
    going = λ o. cc;
    rest = h.rest;
    front = λ o. h.front (ap is_over w);
    complete = λ o. h.complete (ap is_over w);
    open_ = λ f. absurd (f refl);
  }

  Steps-IsOrdered :
      (nodes : List Node) {s t : Walk Node} → Steps s t → IsOrdered nodes s → IsOrdered nodes t
  Steps-IsOrdered nodes (here s) h = h
  Steps-IsOrdered nodes (then_step s t u r e) h = Step-IsOrdered nodes e (Steps-IsOrdered nodes r h)

  new_walk-IsOrdered : (nodes : List Node) → IsOrdered nodes (new_walk nodes)
  unfolding new_walk
  new_walk-IsOrdered nodes = record {
    going = λ o. refl;
    rest = [];
    front = λ o. cc;
    complete = λ o c. cc;
    open_ = λ f. refl;
  }

  walker_cases :
      (w : Walker Node)
      → (w ≡ finished) ⊎ ((w ≡ finishing) ⊎ (((n : Node) × (w ≡ offering n)) ⊎ (w ≡ asking)))
  walker_cases finished = inl refl
  walker_cases finishing = inr (inl refl)
  walker_cases (offering n) = inr (inr (inl (n, refl)))
  walker_cases asking = inr (inr (inr refl))

  list_cases : (ns : List Node) → (ns ≡ []) ⊎ ((n : Node) × (ms : List Node) × (ns ≡ n ∷ ms))
  list_cases [] = inl refl
  list_cases (n ∷ ns) = inr (n, ns, refl)

  -- How many steps are left at most: two for each node ahead, and those of the place.
  abbrev steps_of : Walker Node → ℕ
  steps_of asking = 2
  steps_of (offering n) = 3
  steps_of finishing = 1
  steps_of finished = 0

  abbrev pub steps_left : Walk Node → ℕ
  steps_left s = 2 * length s.ahead + steps_of s.walker

  -- A step of one of the two goroutines that leaves less to do.
  abbrev pub Advances : Walk Node → Type 0
  Advances s = (t : Walk Node) × Step s t × (steps_left t < steps_left s)

  steps_at :
      (s : Walk Node) {w : Walker Node}
      → s.walker ≡ w
      → steps_left s ≡ 2 * length s.ahead + steps_of w
  steps_at s e = ap (λ w. 2 * length s.ahead + steps_of w) e

  lessens : (s t : Walk Node) {m : ℕ} → Step s t → steps_left s ≡ m → steps_left t < m → Advances s
  lessens s t r e l = (t, r, subst (λ k. steps_left t < k) (sym e) l)

  -- The next step of the two goroutines, if there is one.
  goes_on :
      (s : Walk Node)
      → (s.walker ≢ finished → s.returned ≡ false)
      → (s.walker ≡ finished) ⊎ Advances s
  goes_on s open_ = elim (walker_cases s.walker) [
    | inl w ↦ inl w
    | inr (inl w) ↦ inr (lessens s _ (finish s w (open_ (λ e. cc))) (steps_at s w) (omega arith))
    | inr (inr (inl (n, w))) ↦
        inr (lessens s _ (hand_over s n w (open_ (λ e. cc))) (steps_at s w) (omega arith))
    | inr (inr (inr w)) ↦ elim (list_cases s.ahead) [
      | inl none_ ↦ inr (lessens s _ (no_next s w none_) (steps_at s w) (omega arith))
      | inr (n, ns, more) ↦ inr (
          lessens s _ (next s n ns w more) (steps_at s w ∙ ap (λ l. 2 * length l + 2) more)
            (omega arith))
    ]
  ]

  -- Over an iterator that gives some nodes and then ends, at any time of a run: until runIterator is
  -- finished one of the two goroutines can take a step, which leaves less to do; and once it is, start
  -- has stored a front of the nodes in their order, and all of them unless the context was done.
  pub walk_stores :
      (nodes : List Node) (t : Walk Node)
      → Steps (new_walk nodes) t
      → ((t.walker ≡ finished) ⊎ Advances t)
        × (t.walker ≡ finished
            → ((rest : List Node) × (t.stored ++ rest ≡ nodes))
              × (t.cancelled ≡ false → t.stored ≡ nodes))
  walk_stores nodes t r =
      let h = Steps-IsOrdered nodes r (new_walk-IsOrdered nodes) in
      (goes_on t h.open_, λ f. ((h.rest, h.front (ap is_over f)), h.complete (ap is_over f)))
