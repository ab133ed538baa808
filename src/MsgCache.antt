-- ===== src/MsgCache.antt =====
-- MsgCacheManager: the messages that wait for a user who is not connected. Each method holds its
-- mutex from the first line to the last, so a method is one step. An int32_t is its bit pattern.
pub mod Queue
pub mod History
mod Tests
use sever_code.Prelude.{ℕ, Bool, true, List, [], ◌∷◌, ◌++◌, Bytes, ◌==◌, if◌then◌else◌}

pub record NotifyMsgCache : Type 0 where
  pub userid : ℕ
  pub notifymsg : Bytes

pub record ChatMsgCache : Type 0 where
  pub userid : ℕ
  pub chatmsg : Bytes

pub record MsgCacheManager : Type 0 where
  pub list_notify : List NotifyMsgCache
  pub list_chat : List ChatMsgCache

unfoldable pub add_notify_msg_cache : ℕ → Bytes → MsgCacheManager → MsgCacheManager × Bool
add_notify_msg_cache userid cache m =
    let nc : NotifyMsgCache = record { userid = userid; notifymsg = cache } in
    (record m { list_notify = m.list_notify ++ (nc ∷ []) }, true)

unfoldable pub add_chat_msg_cache : ℕ → Bytes → MsgCacheManager → MsgCacheManager × Bool
add_chat_msg_cache userid cache m =
    let c : ChatMsgCache = record { userid = userid; chatmsg = cache } in
    (record m { list_chat = m.list_chat ++ (c ∷ []) }, true)

-- The loop of the two `Get` methods: what stays in the list, and the caller's list.
module _ {A : Type 0} (owner : A → ℕ) (userid : ℕ) where
  unfoldable pub extract : List A → List A → List A × List A
  extract [] cache = ([], cache)
  extract (x ∷ rest) cache =
      let own = owner x == userid in
      let (left, taken) = extract rest (if own then cache ++ (x ∷ []) else cache) in
      (if own then left else x ∷ left, taken)

unfoldable pub get_notify_msg_cache :
    ℕ → List NotifyMsgCache → MsgCacheManager → MsgCacheManager × List NotifyMsgCache
unfolding extract
get_notify_msg_cache userid cache m =
    let (left, taken) = extract (λ (n : NotifyMsgCache). n.userid) userid m.list_notify cache in
    (record m { list_notify = left }, taken)

unfoldable pub get_chat_msg_cache :
    ℕ → List ChatMsgCache → MsgCacheManager → MsgCacheManager × List ChatMsgCache
unfolding extract
get_chat_msg_cache userid cache m =
    let (left, taken) = extract (λ (c : ChatMsgCache). c.userid) userid m.list_chat cache in
    (record m { list_chat = left }, taken)
