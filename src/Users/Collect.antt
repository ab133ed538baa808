-- ===== src/Users/Collect.antt =====
-- `removeOneCollectInfo` of UserManager.cpp.
use sever_code.Prelude.{
  ◌≡◌, refl, arith, Bool, true, false, ◌&&◌, List, [], ◌∷◌, ◌++◌, append-nil, Bytes, same,
  same_refl, if◌then◌else◌,
}
use sever_code.Users.Types.{CollectInfo, SqlClient, World}
use sever_code.Users.Statements.{delete_collect}
use sever_code.Users.Assets.{add_collect_info}

unfoldable pub is_collect : Bytes → Bytes → Bytes → CollectInfo → Bool
is_collect uid title type c =
    same c.c_uid uid && (same c.c_assets_title title && same c.c_assets_type type)

-- The search for the entry, which sets `isExist`.
unfoldable pub exists_collect : Bytes → Bytes → Bytes → List CollectInfo → Bool
unfolding is_collect
exists_collect uid title type [] = false
exists_collect uid title type (c ∷ l) =
    if is_collect uid title type c then true else exists_collect uid title type l

-- The second loop, which erases one element and stops.
unfoldable pub erase_collect : Bytes → Bytes → Bytes → List CollectInfo → List CollectInfo
unfolding is_collect
erase_collect uid title type [] = []
erase_collect uid title type (c ∷ l) =
    if is_collect uid title type c then l else c ∷ erase_collect uid title type l

module _ (D : SqlClient) where
  unfoldable pub remove_one_collect_info :
      Bytes → Bytes → Bytes → World D.Server → Bool × World D.Server
  unfolding exists_collect erase_collect delete_collect
  remove_one_collect_info uid title type w =
      let (is_ok, server) = D.execute (delete_collect uid title type) w.server in
      let l = w.manager.cache_collect_info in
      if exists_collect uid title type l
      then (if is_ok
          then (
            true,
            record {
              manager = record (w.manager) { cache_collect_info = erase_collect uid title type l };
              server = server;
            },
          )
          else (false, record w { server = server }))
      else (false, w)

-- Two lists of entries differ in one of them: `c`, the first that the arguments describe.
pub record IsFirst (uid title type : Bytes) (before : List CollectInfo) (c : CollectInfo)
    : Type 0 where
  pub here : is_collect uid title type c ≡ true
  pub not_before : exists_collect uid title type before ≡ false

module _ (uid title type : Bytes) (c : CollectInfo) (after : List CollectInfo) where
  exists_collect-first :
      (before : List CollectInfo)
      → is_collect uid title type c ≡ true
      → exists_collect uid title type (before ++ (c ∷ after)) ≡ true
  unfolding exists_collect
  exists_collect-first [] e = ground (arith, e)
  exists_collect-first (b ∷ before) e = ground (arith, e, exists_collect-first before e)

  erase_collect-first :
      (before : List CollectInfo)
      → is_collect uid title type c ≡ true
      → exists_collect uid title type before ≡ false
      → erase_collect uid title type (before ++ (c ∷ after)) ≡ before ++ after
  unfolding erase_collect exists_collect
  erase_collect-first [] e h = ground (arith, e)
  erase_collect-first (b ∷ before) e h = ground (arith, h, e, erase_collect-first before e)

  module _ (D : SqlClient) (w : World D.Server) where
    -- With the list `before`, `c`, `after` in memory, where `c` is the first entry that fits: one
    -- statement goes to the server, its success is what is returned, and on success exactly `c`
    -- leaves the list, while on failure the list stays.
    pub remove_one_collect_info_first :
        (before : List CollectInfo)
        → w.manager.cache_collect_info ≡ before ++ (c ∷ after)
        → IsFirst uid title type before c
        → remove_one_collect_info D uid title type w ≡ (
          (D.execute (delete_collect uid title type) w.server).0,
          record {
            manager = record (w.manager) {
              cache_collect_info =
                  if (D.execute (delete_collect uid title type) w.server).0
                  then before ++ after
                  else before ++ (c ∷ after);
            };
            server = (D.execute (delete_collect uid title type) w.server).1;
          },
        )
    unfolding remove_one_collect_info
    remove_one_collect_info_first before e first =
        rw (e, exists_collect-first before first.here)
          (ground (arith, e, erase_collect-first before first.here first.not_before))

module _ (uid title type : Bytes) (D : SqlClient) (w : World D.Server) where
  -- Without an entry that fits in memory no statement goes to the server: false is returned and
  -- nothing changes.
  pub remove_one_collect_info_absent :
      exists_collect uid title type w.manager.cache_collect_info ≡ false
      → remove_one_collect_info D uid title type w ≡ (false, w)
  unfolding remove_one_collect_info
  remove_one_collect_info_absent h = rw h refl

module _ (D : SqlClient) (w : World D.Server) (c_id uid type title : Bytes) where
  added_entry : CollectInfo
  added_entry = record { c_id = c_id; c_uid = uid; c_assets_type = type; c_assets_title = title }

  is_collect-added : is_collect uid title type added_entry ≡ true
  unfolding is_collect added_entry
  is_collect-added = ground (arith, same_refl uid, same_refl title, same_refl type)

  add_collect_info-cache :
      (add_collect_info D c_id uid type title w).0 ≡ true
      → ((add_collect_info D c_id uid type title w).1).manager.cache_collect_info
        ≡ w.manager.cache_collect_info ++ (added_entry ∷ [])
  unfolding add_collect_info added_entry
  add_collect_info-cache = ground arith

  -- An entry that was not in memory, added and removed again, with both statements accepted by
  -- the server, leaves the list in memory as it was before.
  pub remove_one_collect_info-add_collect_info :
      exists_collect uid title type w.manager.cache_collect_info ≡ false
      → (add_collect_info D c_id uid type title w).0 ≡ true
      → (D.execute
          (delete_collect uid title type)
          ((add_collect_info D c_id uid type title w).1).server).0
        ≡ true
      → ((remove_one_collect_info D uid title type ((add_collect_info D c_id uid type title w).1)).1
        ).manager.cache_collect_info
        ≡ w.manager.cache_collect_info
  remove_one_collect_info-add_collect_info absent accepted deleted =
      rw
        (
          remove_one_collect_info_first uid title type added_entry [] D
              ((add_collect_info D c_id uid type title w).1) w.manager.cache_collect_info
              (add_collect_info-cache accepted)
              (record { here = is_collect-added; not_before = absent }),
          deleted,
        )
        (append-nil w.manager.cache_collect_info)
