-- ===== src/Users/Assets.antt =====
-- The lists of assets in memory: adding to them and copying from them.
use sever_code.Prelude.{◌≡◌, sym, ◌∙◌, arith, Bool, true, false, List, [], ◌∷◌, ◌++◌}
use sever_code.Prelude.{append-nil, append_assoc, Bytes, same, keep, if◌then◌else◌}
use sever_code.Users.Types.{UserManager, WordInfo, AudioInfo, VideoInfo, BrowseInfo, CollectInfo}
use sever_code.Users.Types.{SqlClient, World}
use sever_code.Users.Statements.{
  insert_word, insert_video, insert_audio, insert_browse, insert_collect,
}

-- for (const auto& it : items) { if (test) list.push_back(it); }
module _ {A : Type 0} (test : A → Bool) where
  unfoldable pub push_if : List A → List A → List A
  push_if list [] = list
  push_if list (it ∷ items) = push_if (if test it then list ++ (it ∷ []) else list) items

  pub push_if-keep : (list items : List A) → push_if list items ≡ list ++ keep test items
  unfolding push_if keep
  push_if-keep list [] = sym (append-nil list)
  push_if-keep list (it ∷ items) = ground (
    arith,
    push_if-keep list items,
    push_if-keep (list ++ (it ∷ [])) items,
    append_assoc list (it ∷ []) (keep test items),
  )

module _ {A : Type 0} where
  unfoldable pub push_all : List A → List A → List A
  push_all list [] = list
  push_all list (it ∷ items) = push_all (list ++ (it ∷ [])) items

  pub push_all-append : (list items : List A) → push_all list items ≡ list ++ items
  unfolding push_all
  push_all-append list [] = sym (append-nil list)
  push_all-append list (it ∷ items) =
      push_all-append (list ++ (it ∷ [])) items ∙ append_assoc list (it ∷ []) items

unfoldable pub get_video_info : List VideoInfo → UserManager → Bool × List VideoInfo
unfolding push_all
get_video_info v_list m = (true, push_all v_list m.cache_video_info)

unfoldable pub get_audio_info : List AudioInfo → UserManager → Bool × List AudioInfo
unfolding push_all
get_audio_info a_list m = (true, push_all a_list m.cache_audio_info)

unfoldable pub get_word_info : List WordInfo → UserManager → Bool × List WordInfo
unfolding push_all
get_word_info t_list m = (true, push_all t_list m.cache_word_info)

-- The three lists that a request fills.
pub record Lists : Type 0 where
  pub videos : List VideoInfo
  pub audios : List AudioInfo
  pub words : List WordInfo

unfoldable pub no_assets : Lists
no_assets = record { videos = []; audios = []; words = [] }

-- `GetDynamicInfoFromDB`: what the user has uploaded, by the name.
unfoldable pub get_dynamic_info : Lists → Bytes → UserManager → Bool × Lists
unfolding get_video_info get_audio_info get_word_info push_if
get_dynamic_info l user_name m = (
  true,
  record {
    videos =
        push_if (λ (v : VideoInfo). same v.v_up_name user_name) l.videos ((get_video_info [] m).1);
    audios =
        push_if (λ (a : AudioInfo). same a.a_up_name user_name) l.audios ((get_audio_info [] m).1);
    words = push_if (λ (t : WordInfo). same t.up_name user_name) l.words ((get_word_info [] m).1);
  },
)

module _ (D : SqlClient) where
  unfoldable pub add_word_info : WordInfo → World D.Server → Bool × World D.Server
  add_word_info info w =
      let (result, server) = D.execute (insert_word info) w.server in
      if result
      then (
        true,
        record {
          manager = record (w.manager) {
            cache_word_info = w.manager.cache_word_info ++ (info ∷ []);
          };
          server = server;
        },
      )
      else (false, record w { server = server })

  unfoldable pub add_video_info : VideoInfo → World D.Server → Bool × World D.Server
  add_video_info info w =
      let (result, server) = D.execute (insert_video info) w.server in
      if result
      then (
        true,
        record {
          manager = record (w.manager) {
            cache_video_info = w.manager.cache_video_info ++ (info ∷ []);
          };
          server = server;
        },
      )
      else (false, record w { server = server })

  unfoldable pub add_audio_info : AudioInfo → World D.Server → Bool × World D.Server
  add_audio_info info w =
      let (result, server) = D.execute (insert_audio info) w.server in
      if result
      then (
        true,
        record {
          manager = record (w.manager) {
            cache_audio_info = w.manager.cache_audio_info ++ (info ∷ []);
          };
          server = server;
        },
      )
      else (false, record w { server = server })

  unfoldable pub add_browse_info :
      Bytes → Bytes → Bytes → Bytes → World D.Server → Bool × World D.Server
  add_browse_info b_id b_uid b_assets_type b_assets_title w =
      let (result, server) =
        D.execute (insert_browse b_id b_uid b_assets_type b_assets_title) w.server in
      let info : BrowseInfo = record {
        b_id = b_id;
        b_uid = b_uid;
        b_assets_type = b_assets_type;
        b_browse_title = b_assets_title;
      } in
      if result
      then (
        true,
        record {
          manager = record (w.manager) {
            cache_browse_info = w.manager.cache_browse_info ++ (info ∷ []);
          };
          server = server;
        },
      )
      else (false, record w { server = server })

  unfoldable pub add_collect_info :
      Bytes → Bytes → Bytes → Bytes → World D.Server → Bool × World D.Server
  add_collect_info c_id c_uid c_assets_type c_assets_title w =
      let (result, server) =
        D.execute (insert_collect c_id c_uid c_assets_type c_assets_title) w.server in
      let info : CollectInfo = record {
        c_id = c_id;
        c_uid = c_uid;
        c_assets_type = c_assets_type;
        c_assets_title = c_assets_title;
      } in
      if result
      then (
        true,
        record {
          manager = record (w.manager) {
            cache_collect_info = w.manager.cache_collect_info ++ (info ∷ []);
          };
          server = server;
        },
      )
      else (false, record w { server = server })
