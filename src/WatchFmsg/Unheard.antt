-- ===== src/WatchFmsg/Unheard.antt =====
-- What a watcher answers to the nodes that call its functions.
use gorigin.Prelude.{
  ℕ, ◌≡◌, refl, List, [], ◌∷◌, ◌++◌, Option, none, Bytes, Bool, false, ltb, All, Dict, value,
}
use gorigin.Wire.{bytes_of}
use gorigin.Pb.{FuncMsg, GetFuncMsgRsp}
use gorigin.Registry.{built_in_max}
use gorigin.Services.{Server}
use gorigin.Protocal.{fails}
use gorigin.FuncCache.{NodeConn, FuncMap, query_func, put_msg}
use gorigin.FuncCache.Laws.{Reach, next, puts, query-Reach}
use gorigin.Client.{WatchNode}
use gorigin.Client.Requests.{asked_func, asked_func-alone}
use gorigin.Serve.{Codec, dispatch, put_msgs}
use gorigin.WatchFmsg.{init_row, watch_fmsg, put_watch}

-- The cache behind `runServer` is one that is reached.
pub put_watch-Reach : (f : FuncMap) (rows : List FuncMsg) → Reach f → Reach (put_watch f rows)
unfolding put_watch put_msgs
put_watch-Reach f [] r = r
put_watch-Reach f (row ∷ rows) r = put_watch-Reach (put_msg f row).0 rows (next r (puts f row))

module _ {V : Type 0} (c : Codec V) (test refresh linked : NodeConn → Bool) (peer : Option Bytes)
    (funcs : Dict Bytes Server) (encode : ℕ → Bytes → Option Bytes)
    (attempt : Bytes → NodeConn → ℕ → Option (Option GetFuncMsgRsp)) (w : WatchNode) (f : FuncMap)
    (from bts : Bytes) where
  -- The answer that a number is not known.
  abbrev pub IsUnknown : ℕ → Type 0
  IsUnknown fid =
      dispatch c test refresh peer funcs (asked_func linked encode attempt w) from f fid bts
      ≡ value (f, fails (bytes_of "not found server api mapping in server: " ++ from))

  asks_nobody :
      (fid : ℕ)
      → Reach f
      → w.master ≡ none
      → w.slaves ≡ []
      → query_func (asked_func linked encode attempt w) f fid [] ≡ (f, none)
  unfolding query_func
  asks_nobody fid r m s =
      rw (query_func, query-Reach f fid [] r, asked_func-alone linked encode attempt w fid [] m s)
        refl

  dispatch-IsUnknown :
      (fid : ℕ)
      → Reach f
      → w.master ≡ none
      → w.slaves ≡ []
      → ltb fid built_in_max ≡ false
      → IsUnknown fid
  unfolding dispatch
  dispatch-IsUnknown fid r m s big = simp (asks_nobody fid r m s, big)

  -- A watcher knows no watcher that it could ask, and its own cache never finds a function. Whatever
  -- operations have made its cache, and whatever services it has: it answers a request to each of its
  -- own functions over TCP or UDP, a registration and a heartbeat among them, with the error that it
  -- does not know the function, and its cache stays as it was.
  pub watch_fmsg-IsUnknown :
      Reach f → w.master ≡ none → w.slaves ≡ [] → All (λ row. IsUnknown row.func_id) watch_fmsg
  unfolding watch_fmsg init_row
  watch_fmsg-IsUnknown r m s = (
    dispatch-IsUnknown 81 r m s refl,
    (
      dispatch-IsUnknown 80 r m s refl,
      (
        dispatch-IsUnknown 82 r m s refl,
        (
          dispatch-IsUnknown 83 r m s refl,
          (
            dispatch-IsUnknown 84 r m s refl,
            (dispatch-IsUnknown 85 r m s refl, (dispatch-IsUnknown 86 r m s refl, tt)),
          ),
        ),
      ),
    ),
  )
