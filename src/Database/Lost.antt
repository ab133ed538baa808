-- ===== src/Database/Lost.antt =====
-- MySQLTool without a handle: after its constructor, and after a connect that failed.
use sever_code.Prelude.{◌≡◌, inl, inr, refl, ap, ◌∙◌, false}
use sever_code.Prelude.{Bytes, none, if◌then◌else◌, Bool-cases}
use sever_code.Prelude.{ok, fault, bad_access}
use sever_code.Database.{MySqlLib, Link, failed, c_str}
use sever_code.Database.{reconnect, connect, real_query, attempt, send, query, execute}
use sever_code.Database.{execute_counted}

module _ (L : MySqlLib) (sql : Bytes) (l : Link L.Server) (lost : l.tool.connected ≡ false) where
  without_handle :
      (if (reconnect L l).0
        then ok (failed, (reconnect L l).1)
        else attempt L sql (reconnect L l).1)
      ≡ (if (reconnect L l).0 then ok (failed, (reconnect L l).1) else fault bad_access)
  unfolding reconnect connect attempt real_query
  without_handle =
      elim (Bool-cases
        (L.connect l.tool.host l.tool.user l.tool.passwd l.tool.dbname 3306 l.server).0) [
          | inl fine ↦ rw fine refl
          | inr lost_again ↦ rw lost_again refl
        ]

  send_disconnected :
      send L sql l
      ≡ (if (reconnect L l).0 then ok (failed, (reconnect L l).1) else fault bad_access)
  unfolding send
  send_disconnected =
      ap
        (λ b.
          if b
          then attempt L sql l
          else (let (fine, l') = reconnect L l in
              if fine then ok (failed, l') else attempt L sql l'))
        lost
      ∙ without_handle

module _ (L : MySqlLib) (sql : Bytes) (l : Link L.Server) (lost : l.tool.connected ≡ false) where
  execute_after :
      execute L sql l
      ≡ (if (reconnect L l).0 then ok (false, (reconnect L l).1) else fault bad_access)
  unfolding execute execute_counted
  execute_after =
      rw (send_disconnected L (c_str sql) l lost)
        (elim (Bool-cases (reconnect L l).0) [ inl e ↦ rw e refl | inr e ↦ rw e refl ])

  query_after :
      query L sql l ≡ (if (reconnect L l).0 then ok (none, (reconnect L l).1) else fault bad_access)
  unfolding query
  query_after =
      rw (send_disconnected L sql l lost)
        (elim (Bool-cases (reconnect L l).0) [ inl e ↦ rw e refl | inr e ↦ rw e refl ])

  -- Without a handle, Execute and Query give up after a connect that succeeds, with false and with
  -- no result, and read through the null handle after one that fails.
  pub execute_disconnected :
      (execute L sql l
        ≡ (if (reconnect L l).0 then ok (false, (reconnect L l).1) else fault bad_access))
      × (query L sql l
          ≡ (if (reconnect L l).0 then ok (none, (reconnect L l).1) else fault bad_access))
  execute_disconnected = (execute_after, query_after)
