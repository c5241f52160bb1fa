-- ===== src/Examples/Files.antt =====
-- An item is sent, the context ends, and the goroutine drains the channel.
use nodewatch_api.Base.{ℕ, ◌≡◌, refl, true, false, Option, none, some, List, [], ◌∷◌, map}
use nodewatch_api.Base.Text.{Text, codes}
use nodewatch_api.Output.{
  Output, draining, new_output, flush_all, drain_item, Steps, send, close, cancel, see_end, drain,
  end, here, then_step,
}
use nodewatch_api.Output.Drained.{items, stopped_complete}

abbrev marshal : Option ℕ → Text
marshal none = codes "null"
marshal (some n) = n ∷ []

abbrev sent_one : Output ℕ
sent_one = record (new_output false) { sent = 5 ∷ []; queue = 5 ∷ [] }

abbrev cancelled_one : Output ℕ
cancelled_one = record sent_one { closed = true; cancelled = true }

abbrev drained_one : Output ℕ
drained_one = drain_item marshal 5 (record cancelled_one { mode = draining; queue = [] })

run_one : Steps marshal (new_output false) (flush_all marshal drained_one)
unfolding new_output drain_item
run_one =
    then_step _ _ _
      (then_step _ _ _
        (then_step _ _ _
          (then_step _ _ _
            (then_step _ _ _ (then_step _ _ _ (here _) (send (new_output false) 5 refl))
              (close sent_one refl))
            (cancel (record sent_one { closed = true })))
          (see_end cancelled_one refl refl))
        (drain (record cancelled_one { mode = draining }) 5 [] refl refl))
      (end drained_one refl refl refl)

one_written :
    (received : List (Option ℕ)) × ((flush_all marshal drained_one).lines ≡ map marshal received)
    × (items received ≡ (flush_all marshal drained_one).sent)
one_written =
    stopped_complete marshal false (flush_all marshal drained_one) run_one
      (unfold flush_all in refl)
