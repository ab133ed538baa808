-- ===== src/MsgCache/Queue.antt =====
-- The contract of MsgCacheManager: for each user a queue of notifications and one of chat messages.
use sever_code.Prelude.{ℕ, ◌≡◌, refl, sym, ap, ◌∙◌, arith, Bool, not, List, [], ◌∷◌, ◌++◌}
use sever_code.Prelude.{append-nil, append_assoc, Bytes, keep, keep-append, ◌==◌, if◌then◌else◌}
use sever_code.MsgCache.{NotifyMsgCache, ChatMsgCache, MsgCacheManager, extract}
use sever_code.MsgCache.{add_notify_msg_cache, add_chat_msg_cache}
use sever_code.MsgCache.{get_notify_msg_cache, get_chat_msg_cache}

module _ {A : Type 0} (owner : A → ℕ) where
  unfoldable pub owned : ℕ → List A → List A
  owned u = keep (λ x. owner x == u)

  others : ℕ → List A → List A
  others u = keep (λ x. not (owner x == u))

  -- The loop is a partition that keeps the order on both sides.
  extract-partition :
      (u : ℕ) (xs cache : List A) → extract owner u xs cache ≡ (others u xs, cache ++ owned u xs)
  unfolding extract owned others keep
  extract-partition u [] cache = ap (λ t. ([], t)) (sym (append-nil cache))
  extract-partition u (x ∷ xs) cache = ground (
    arith,
    extract-partition u xs cache,
    extract-partition u xs (cache ++ (x ∷ [])),
    append_assoc cache (x ∷ []) (owned u xs),
  )

  owned-others :
      (u v : ℕ) (xs : List A) → owned v (others u xs) ≡ (if u == v then [] else owned v xs)
  unfolding owned others keep
  owned-others u v [] = ground arith
  owned-others u v (x ∷ xs) = ground (arith, owned-others u v xs)

-- What waits for the user `u`, oldest first.
unfoldable pub notifications : MsgCacheManager → ℕ → List NotifyMsgCache
notifications m u = owned (λ (n : NotifyMsgCache). n.userid) u m.list_notify

unfoldable pub chats : MsgCacheManager → ℕ → List ChatMsgCache
chats m u = owned (λ (c : ChatMsgCache). c.userid) u m.list_chat

keep_one :
    {A : Type 0} (p : A → Bool) (xs : List A) (x : A)
    → keep p (xs ++ (x ∷ [])) ≡ (if p x then keep p xs ++ (x ∷ []) else keep p xs)
keep_one p xs x = keep-append p xs (x ∷ []) ∙ unfold keep in ground (arith, append-nil (keep p xs))

-- A notification goes to the end of its user's queue; every other queue is as before.
pub add_notify-queues :
    (u v : ℕ) (s : Bytes) (m : MsgCacheManager)
    → let m' = (add_notify_msg_cache u s m).0 in
      (notifications m' v ≡ (
        if u == v
        then notifications m v ++ (record { userid = u; notifymsg = s } ∷ [])
        else notifications m v))
      × (chats m' v ≡ chats m v)
unfolding notifications chats add_notify_msg_cache owned
add_notify-queues u v s m = (keep_one (λ (n : NotifyMsgCache). n.userid == v) m.list_notify _, refl)

-- A chat message goes to the end of its user's queue; every other queue is as before.
pub add_chat-queues :
    (u v : ℕ) (s : Bytes) (m : MsgCacheManager)
    → let m' = (add_chat_msg_cache u s m).0 in
      (chats m' v
        ≡ (if u == v then chats m v ++ (record { userid = u; chatmsg = s } ∷ []) else chats m v))
      × (notifications m' v ≡ notifications m v)
unfolding notifications chats add_chat_msg_cache owned
add_chat-queues u v s m = (keep_one (λ (c : ChatMsgCache). c.userid == v) m.list_chat _, refl)

-- The caller's list gets the user's notifications in order; that queue is then empty, and every
-- other queue is as before.
pub get_notify-queues :
    (u v : ℕ) (cache : List NotifyMsgCache) (m : MsgCacheManager)
    → let (m', taken) = get_notify_msg_cache u cache m in
      (taken ≡ cache ++ notifications m u)
      × (notifications m' v ≡ (if u == v then [] else notifications m v))
      × (chats m' v ≡ chats m v)
unfolding notifications chats get_notify_msg_cache
get_notify-queues u v cache m =
    let split = extract-partition (λ (n : NotifyMsgCache). n.userid) u m.list_notify cache in
    (rw split, rw split (owned-others _ u v m.list_notify), refl)

-- The caller's list gets the user's chat messages in order; that queue is then empty, and every
-- other queue is as before.
pub get_chat-queues :
    (u v : ℕ) (cache : List ChatMsgCache) (m : MsgCacheManager)
    → let (m', taken) = get_chat_msg_cache u cache m in
      (taken ≡ cache ++ chats m u)
      × (chats m' v ≡ (if u == v then [] else chats m v))
      × (notifications m' v ≡ notifications m v)
unfolding notifications chats get_chat_msg_cache
get_chat-queues u v cache m =
    let split = extract-partition (λ (c : ChatMsgCache). c.userid) u m.list_chat cache in
    (rw split, rw split (owned-others _ u v m.list_chat), refl)
