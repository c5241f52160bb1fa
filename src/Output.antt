-- ===== src/Output.antt =====
-- output/file.go: the goroutine of Start, which takes what the crawler sends through a channel and writes
-- it to a file and to Kafka, and how it ends. Steps of the senders, of the context and of the goroutine
-- come in any order.
pub mod Drained
use nodewatch_api.Base.{
  ℕ, ◌≡◌, Bool, true, false, Option, none, some, List, [], ◌∷◌, ◌++◌, map, if◌then◌else◌,
}
use nodewatch_api.Base.Text.{Text}

-- Where the goroutine stands: in its loop, behind the end of the context, or at its end.
pub data Mode : Type 0 where
  running draining stopped : Mode

-- `sent` is all that was ever put into the channel, and `queue` what is still in it. `lines` are the
-- texts that were handed to the file's writer, `batch` those that are collected for Kafka while the
-- channel is drained, and `messages` the calls of Kafka's writer.
pub record Output (Item : Type 0) : Type 0 where
  pub sent : List Item
  pub queue : List Item
  pub closed : Bool
  pub cancelled : Bool
  pub mode : Mode
  pub lines : List Text
  pub batch : List Text
  pub messages : List (List Text)
  pub has_kafka : Bool

unfoldable pub new_output : {Item : Type 0} → Bool → Output Item
new_output has_kafka = record {
  sent = [];
  queue = [];
  closed = false;
  cancelled = false;
  mode = running;
  lines = [];
  batch = [];
  messages = [];
  has_kafka = has_kafka;
}

module _ {Item : Type 0} (marshal : Option Item → Text) where
  -- The case of the select that got an item; a closed channel gives nil.
  unfoldable pub write_item : Option Item → Output Item → Output Item
  write_item item o =
      let bytes = marshal item in
      record o {
        lines = o.lines ++ bytes ∷ [];
        messages = if o.has_kafka then o.messages ++ (bytes ∷ []) ∷ [] else o.messages;
      }

  -- One round of the loop that drains the channel.
  unfoldable pub drain_item : Item → Output Item → Output Item
  drain_item item o =
      let bytes = marshal (some item) in
      record o { lines = o.lines ++ bytes ∷ []; batch = o.batch ++ bytes ∷ [] }

  -- The end of the loop: the messages go to Kafka in one call.
  unfoldable pub flush_all : Output Item → Output Item
  flush_all o = record o {
    mode = stopped;
    messages = if o.has_kafka then o.messages ++ o.batch ∷ [] else o.messages;
  }

  pub data Step : Output Item → Output Item → Type 0 where
    -- The crawler sends an item, closes the channel, or the context ends.
    send :
        (o : Output Item) (x : Item)
        → o.closed ≡ false
        → Step o (record o { sent = o.sent ++ x ∷ []; queue = o.queue ++ x ∷ [] })
    close : (o : Output Item) → o.closed ≡ false → Step o (record o { closed = true })
    cancel : (o : Output Item) → Step o (record o { cancelled = true })
    -- The loop takes an item, or nil from a channel that is closed and empty, or sees the end.
    take_item :
        (o : Output Item) (x : Item) (xs : List Item)
        → o.mode ≡ running
        → o.queue ≡ x ∷ xs
        → Step o (write_item (some x) (record o { queue = xs }))
    take_nil :
        (o : Output Item)
        → o.mode ≡ running
        → o.queue ≡ []
        → o.closed ≡ true
        → Step o (write_item none o)
    see_end :
        (o : Output Item)
        → o.mode ≡ running
        → o.cancelled ≡ true
        → Step o (record o { mode = draining })
    drain :
        (o : Output Item) (x : Item) (xs : List Item)
        → o.mode ≡ draining
        → o.queue ≡ x ∷ xs
        → Step o (drain_item x (record o { queue = xs }))
    end :
        (o : Output Item)
        → o.mode ≡ draining
        → o.queue ≡ []
        → o.closed ≡ true
        → Step o (flush_all o)

  -- Any number of steps.
  pub data Steps : Output Item → Output Item → Type 0 where
    here : (o : Output Item) → Steps o o
    then_step : (o p q : Output Item) → Steps o p → Step p q → Steps o q
