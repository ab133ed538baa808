-- ===== src/MsgCache/History.antt =====
-- Any interleaving of the chat methods: nothing is lost, repeated, reordered or misdelivered.
use sever_code.Prelude.{ℕ, List, [], ◌∷◌, ◌++◌}
use sever_code.Prelude.{Bytes, ◌==◌, if◌then◌else◌}
use sever_code.MsgCache.{ChatMsgCache, MsgCacheManager, add_chat_msg_cache, get_chat_msg_cache}
use sever_code.MsgCache.{add_notify_msg_cache, get_notify_msg_cache}

-- A call of a method, from any thread.
pub data Call : Type 0 where
  add_chat : ℕ → Bytes → Call
  get_chat : ℕ → Call
  add_notify : ℕ → Bytes → Call
  get_notify : ℕ → Call

unfoldable pub run_call : Call → MsgCacheManager → MsgCacheManager
run_call (add_chat u s) m = (add_chat_msg_cache u s m).0
run_call (get_chat u) m = (get_chat_msg_cache u [] m).0
run_call (add_notify u s) m = (add_notify_msg_cache u s m).0
run_call (get_notify u) m = (get_notify_msg_cache u [] m).0

-- What one call, and a sequence of calls, hands out to the user `v`.
unfoldable pub handed : ℕ → Call → MsgCacheManager → List ChatMsgCache
handed v (get_chat u) m = if u == v then (get_chat_msg_cache u [] m).1 else []
handed v (add_chat u s) m = []
handed v (add_notify u s) m = []
handed v (get_notify u) m = []

unfoldable pub delivered : ℕ → List Call → MsgCacheManager → List ChatMsgCache
delivered v [] m = []
delivered v (c ∷ calls) m = handed v c m ++ delivered v calls (run_call c m)

unfoldable pub run : List Call → MsgCacheManager → MsgCacheManager
run [] m = m
run (c ∷ calls) m = run calls (run_call c m)

-- The chat messages that one call, and a sequence of calls, adds for `v`, in order.
unfoldable pub added : ℕ → Call → List ChatMsgCache
added v (add_chat u s) = if u == v then record { userid = u; chatmsg = s } ∷ [] else []
added v (get_chat u) = []
added v (add_notify u s) = []
added v (get_notify u) = []

unfoldable pub sent : ℕ → List Call → List ChatMsgCache
sent v [] = []
sent v (c ∷ calls) = added v c ++ sent v calls

-- The contract for one user: a queue, which an added message joins at the end, and which a call of
-- Get for the user hands out whole. What is handed out, and what is left.
unfoldable pub queue_call : ℕ → Call → List ChatMsgCache → List ChatMsgCache × List ChatMsgCache
queue_call v (add_chat u s) q =
    ([], if u == v then q ++ (record { userid = u; chatmsg = s } ∷ []) else q)
queue_call v (get_chat u) q = if u == v then (q, []) else ([], q)
queue_call v (add_notify u s) q = ([], q)
queue_call v (get_notify u) q = ([], q)

unfoldable pub queue_run : ℕ → List Call → List ChatMsgCache → List ChatMsgCache × List ChatMsgCache
unfolding queue_call
queue_run v [] q = ([], q)
queue_run v (c ∷ calls) q =
    let (out, left) = queue_call v c q in
    let (more, last) = queue_run v calls left in (out ++ more, last)
