-- ===== src/Output/Drained.antt =====
-- Nothing that is sent is lost.
use nodewatch_api.Base.{
  ◌≡◌, refl, sym, ap, ◌∙◌, Bool, true, Option, none, some, List, [], ◌∷◌, ◌++◌, map, append_assoc,
  append-nil, arith,
}
use nodewatch_api.Base.Text.{Text}
use nodewatch_api.Output.{
  Output, stopped, new_output, write_item, drain_item, flush_all, Step, Steps, send, close, cancel,
  take_item, take_nil, see_end, drain, end, here, then_step,
}

-- The items among what was received.
abbrev pub items : {Item : Type 0} → List (Option Item) → List Item
items [] = []
items (none ∷ rs) = items rs
items (some x ∷ rs) = x ∷ items rs

items-append :
    {Item : Type 0} (rs ss : List (Option Item)) → items (rs ++ ss) ≡ items rs ++ items ss
items-append [] ss = refl
items-append (none ∷ rs) ss = items-append rs ss
items-append (some x ∷ rs) ss = ap (◌∷◌ x) (items-append rs ss)

map-append :
    {A : Type 0} {B : Type 0} (f : A → B) (xs ys : List A) → map f (xs ++ ys) ≡ map f xs ++ map f ys
map-append f [] ys = refl
map-append f (x ∷ xs) ys = ap (◌∷◌ (f x)) (map-append f xs ys)

taken :
    {Item : Type 0} (rs : List (Option Item)) (queue : List Item) (x : Item) (xs sent : List Item)
    → queue ≡ x ∷ xs
    → items rs ++ queue ≡ sent
    → items (rs ++ some x ∷ []) ++ xs ≡ sent
taken rs queue x xs sent q h =
    ap (λ t. t ++ xs) (items-append rs (some x ∷ []))
    ∙ append_assoc (items rs) (x ∷ []) xs
    ∙ ap (λ t. items rs ++ t) (sym q)
    ∙ h

module _ {Item : Type 0} (marshal : Option Item → Text) where
  -- The lines are those of what was received, whose items with the queue are all that was sent; and at
  -- the end the queue is empty.
  pub record IsAccounted (o : Output Item) : Type 0 where
    pub received : List (Option Item)
    pub of_lines : o.lines ≡ map marshal received
    pub of_sent : items received ++ o.queue ≡ o.sent
    pub at_end : o.mode ≡ stopped → (o.queue ≡ []) × (o.closed ≡ true)

  Step-IsAccounted : {o p : Output Item} → Step marshal o p → IsAccounted o → IsAccounted p
  unfolding write_item drain_item flush_all
  Step-IsAccounted (send o x h) a = record {
    received = a.received;
    of_lines = a.of_lines;
    of_sent =
        sym (append_assoc (items a.received) o.queue (x ∷ [])) ∙ ap (λ t. t ++ x ∷ []) a.of_sent;
    at_end = λ m. absurd (ground (arith, a.at_end m));
  }
  Step-IsAccounted (close o h) a = record {
    received = a.received;
    of_lines = a.of_lines;
    of_sent = a.of_sent;
    at_end = λ m. ((a.at_end m).0, refl);
  }
  Step-IsAccounted (cancel o) a = record {
    received = a.received;
    of_lines = a.of_lines;
    of_sent = a.of_sent;
    at_end = a.at_end;
  }
  Step-IsAccounted (take_item o x xs m q) a = record {
    received = a.received ++ some x ∷ [];
    of_lines =
        ap (λ t. t ++ marshal (some x) ∷ []) a.of_lines
        ∙ sym (map-append marshal a.received (some x ∷ []));
    of_sent = taken a.received o.queue x xs o.sent q a.of_sent;
    at_end = λ e. absurd (ground arith);
  }
  Step-IsAccounted (take_nil o m q c) a = record {
    received = a.received ++ none ∷ [];
    of_lines =
        ap (λ t. t ++ marshal none ∷ []) a.of_lines
        ∙ sym (map-append marshal a.received (none ∷ []));
    of_sent =
        ap (λ t. t ++ o.queue) (items-append a.received (none ∷ []) ∙ append-nil (items a.received))
        ∙ a.of_sent;
    at_end = λ e. absurd (ground arith);
  }
  Step-IsAccounted (see_end o m c) a = record {
    received = a.received;
    of_lines = a.of_lines;
    of_sent = a.of_sent;
    at_end = λ e. absurd (ground arith);
  }
  Step-IsAccounted (drain o x xs m q) a = record {
    received = a.received ++ some x ∷ [];
    of_lines =
        ap (λ t. t ++ marshal (some x) ∷ []) a.of_lines
        ∙ sym (map-append marshal a.received (some x ∷ []));
    of_sent = taken a.received o.queue x xs o.sent q a.of_sent;
    at_end = λ e. absurd (ground arith);
  }
  Step-IsAccounted (end o m q c) a = record {
    received = a.received;
    of_lines = a.of_lines;
    of_sent = a.of_sent;
    at_end = λ e. (q, c);
  }

  Steps-IsAccounted : {o p : Output Item} → Steps marshal o p → IsAccounted o → IsAccounted p
  Steps-IsAccounted (here o) a = a
  Steps-IsAccounted (then_step o p q ss s) a = Step-IsAccounted s (Steps-IsAccounted ss a)

  new_output-IsAccounted : (has_kafka : Bool) → IsAccounted (new_output has_kafka)
  unfolding new_output
  new_output-IsAccounted has_kafka = record {
    received = [];
    of_lines = refl;
    of_sent = refl;
    at_end = λ e. absurd (ground arith);
  }

  pub stopped_closed :
      (has_kafka : Bool) (o : Output Item)
      → Steps marshal (new_output has_kafka) o
      → o.mode ≡ stopped
      → (o.queue ≡ []) × (o.closed ≡ true)
  stopped_closed has_kafka o ss m =
      (Steps-IsAccounted ss (new_output-IsAccounted has_kafka)).at_end m

  -- When the goroutine has ended, after whatever steps in whatever order, each item that was ever sent
  -- was handed to the file's writer as one line, all in the order in which they were sent, and no other
  -- line but those of nil.
  pub stopped_complete :
      (has_kafka : Bool) (o : Output Item)
      → Steps marshal (new_output has_kafka) o
      → o.mode ≡ stopped
      → (received : List (Option Item)) × (o.lines ≡ map marshal received)
        × (items received ≡ o.sent)
  stopped_complete has_kafka o ss m =
      let a = Steps-IsAccounted ss (new_output-IsAccounted has_kafka) in
      let (empty, _) = a.at_end m in
      (
        a.received,
        a.of_lines,
        sym (append-nil (items a.received))
            ∙ ap (λ t. items a.received ++ t) (sym empty)
            ∙ a.of_sent,
      )
