-- ===== src/MsgCache/Tests.antt =====
-- Runs of MsgCacheManager.
use sever_code.Prelude.{List, [], ◌∷◌, text}
use sever_code.MsgCache.{NotifyMsgCache, ChatMsgCache, MsgCacheManager}
use sever_code.MsgCache.History.{Call, add_chat, get_chat}

abbrev hello : NotifyMsgCache
hello = record { userid = 1; notifymsg = text "hello" }

abbrev hi : ChatMsgCache
hi = record { userid = 2; chatmsg = text "hi" }

abbrev waiting : MsgCacheManager
waiting = record { list_notify = hello ∷ []; list_chat = hi ∷ [] }

abbrev calls : List Call
calls = add_chat 2 (text "a") ∷ get_chat 2 ∷ add_chat 2 (text "b") ∷ []
