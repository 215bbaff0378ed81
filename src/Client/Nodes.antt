-- ===== src/Client/Nodes.antt =====
-- The node that `newClient` makes, and its watchers.
use gorigin.Prelude.{◌≡◌, List, Option, none, some, Bool, All, bytes_key}
use gorigin.FuncCache.{NodeConn}
use gorigin.Client.{WatchNode}
use gorigin.Client.Config.{Node, heartbeat_interval}

-- A list of connections that are all copies of the master, if there is one.
abbrev AreOne : WatchNode → Type 0
AreOne w = (m : NodeConn) → w.master ≡ some m → All (λ s. s ≡ m) w.slaves

-- The slaves are copies of the master, if there is one.
abbrev pub CopiesOf : Option NodeConn → List NodeConn → Type 0
CopiesOf none slaves = Unit
CopiesOf (some m) slaves = All (λ s. s ≡ m) slaves

-- What holds of a node that `newClient` makes.
record IsOne (n : Node) : Type 0 where
  heart : n.heart ≡ heartbeat_interval
  one : AreOne n.wser

abbrev Made : Option (Node × Bool) → Type 0
Made none = Unit
Made (some (n, ok)) = IsOne n
