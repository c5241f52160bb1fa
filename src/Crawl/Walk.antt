-- ===== src/Crawl/Walk.antt =====
-- start and runIterator of crawler/crawl/crawl.go: two goroutines that meet at the channel of nodes,
-- which holds none, and at the channel that says that the iterator is finished.
pub mod Order
use nodewatch_api.Base.{◌≡◌, Bool, true, false, Option, none, some, List, [], ◌∷◌, ◌++◌}

-- Where runIterator is: about to ask the iterator, at its select with a node, at the send of its
-- deferred function, or done.
pub data Walker (Node : Type 0) : Type 0 where
  asking finishing finished : Walker Node
  offering : Node → Walker Node

-- The state: whether the context is done, the nodes that the iterator will still give, the two
-- goroutines (`start` returns when the iterator is finished), and the calls of storePeer.
pub record Walk (Node : Type 0) : Type 0 where
  pub cancelled : Bool
  pub ahead : List Node
  pub walker : Walker Node
  pub returned : Bool
  pub stored : List Node

unfoldable pub new_walk : {Node : Type 0} → List Node → Walk Node
new_walk nodes = record {
  cancelled = false;
  ahead = nodes;
  walker = asking;
  returned = false;
  stored = [];
}

module _ {Node : Type 0} where
  pub data Step : Walk Node → Walk Node → Type 0 where
    cancel : (s : Walk Node) → Step s (record s { cancelled = true })
    -- The iterator has a node, or no more.
    next :
        (s : Walk Node) (n : Node) (ns : List Node)
        → s.walker ≡ asking
        → s.ahead ≡ n ∷ ns
        → Step s (record s { ahead = ns; walker = offering n })
    no_next :
        (s : Walk Node)
        → s.walker ≡ asking
        → s.ahead ≡ []
        → Step s (record s { walker = finishing })
    -- The node is handed over and stored, or the end of the context is seen.
    hand_over :
        (s : Walk Node) (n : Node)
        → s.walker ≡ offering n
        → s.returned ≡ false
        → Step s (record s { walker = asking; stored = s.stored ++ n ∷ [] })
    see_end :
        (s : Walk Node) (n : Node)
        → s.walker ≡ offering n
        → s.cancelled ≡ true
        → Step s (record s { walker = finishing })
    -- The deferred send and its receipt, with which start returns.
    finish :
        (s : Walk Node)
        → s.walker ≡ finishing
        → s.returned ≡ false
        → Step s (record s { walker = finished; returned = true })

  pub data Steps : Walk Node → Walk Node → Type 0 where
    here : (s : Walk Node) → Steps s s
    then_step : (s t u : Walk Node) → Steps s t → Step t u → Steps s u
