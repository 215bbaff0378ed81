-- ===== src/Elect.antt =====
-- network/watch/elect.go: the campaigns of watchers for the place of the main node. The answers of the
-- others, which `Elect` collects and nothing reads, and the state of the machine are left out.
pub mod Laws
use gorigin.Prelude.{
  ℕ, ◌+◌, List, [], ◌∷◌, Option, none, some, Bytes, Bool, true, false, not, ◌&&◌, ltb,
  if◌then◌else◌,
}

pub record WatchElect : Type 0 where
  pub center : Bool
  pub begin : ℕ
  pub exprie : ℕ
  pub node_id : Bytes

-- `base` is the uuid of the node that campaigns.
pub record ElectCampReq : Type 0 where
  pub base : Bytes
  pub uuids : List Bytes
  pub begin : ℕ
  pub exprie : ℕ

-- A watcher that is known: its uuid and status.
pub record WatchNode : Type 0 where
  pub uuid : Bytes
  pub status : Bool

unfoldable pub alive : List WatchNode → List Bytes
alive [] = []
alive (n ∷ ns) = let rest = alive ns in if n.status then n.uuid ∷ rest else rest

-- `Elect` by the node `self`: the state, and the request that goes to the others, if any.
unfoldable pub elect : WatchElect → ℕ → Bytes → List WatchNode → WatchElect × Option ElectCampReq
elect e now self watch = if ltb now e.exprie then (e, none) else (
  record { center = false; node_id = self; begin = now; exprie = now + 10000 },
  some (record { base = self; uuids = alive watch; begin = now; exprie = now + 10000 }),
)

-- `ElectNotify`: the state, and whether the campaign is accepted.
unfoldable pub elect_notify : WatchElect → ℕ → ElectCampReq → WatchElect × Bool
elect_notify msg now req = if ltb now msg.exprie && ltb msg.begin req.begin then (msg, false) else (
  record { center = false; node_id = req.base; begin = req.begin; exprie = req.exprie },
  true,
)
