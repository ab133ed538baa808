-- ===== src/Session/Stored.antt =====
-- What an upload leaves: the asset is in the lists of the user whose name the message holds
-- (ClientSession.cpp, UserManager.cpp).
use sever_code.Prelude.{◌≡◌, refl, sym, ap, ◌∙◌, arith, true, List, [], ◌∷◌, ◌++◌}
use sever_code.Prelude.{Bytes, same, keep, keep-append, ok, if◌then◌else◌}
use sever_code.Users.Types.{UserManager, WordInfo, AudioInfo, VideoInfo, SqlClient, World}
use sever_code.Users.Statements.{insert_audio, insert_video}
use sever_code.Users.Assets.{Lists, no_assets, get_dynamic_info, add_audio_info, add_video_info}
use sever_code.Users.Selection.{join, get_dynamic_info-keep}
use sever_code.Session.{JsonLib}
use sever_code.Session.TableId.{TimeLib, Moment, get_table_id}
use sever_code.Session.Upload.{
  uid_of, uploaded_audio, uploaded_video, on_upload_audio, on_upload_video, audio_reply,
  video_reply,
}

-- The list of the assets of a name, after one more was added.
keep-added :
    {A : Type 0} (name_of : A → Bytes) (name : Bytes) (l : List A) (a : A)
    → keep (λ x. same (name_of x) name) (l ++ (a ∷ []))
      ≡ keep (λ x. same (name_of x) name) l ++ (if same (name_of a) name then a ∷ [] else [])
unfolding keep
keep-added name_of name l a = keep-append (λ x. same (name_of x) name) l (a ∷ []) ∙ ground arith

-- What the user of a name has uploaded.
unfoldable pub uploads : Bytes → UserManager → Lists
uploads name m = (get_dynamic_info no_assets name m).1

uploads-keep :
    (name : Bytes) (m : UserManager)
    → uploads name m ≡ record {
      videos = keep (λ (v : VideoInfo). same v.v_up_name name) m.cache_video_info;
      audios = keep (λ (a : AudioInfo). same a.a_up_name name) m.cache_audio_info;
      words = keep (λ (t : WordInfo). same t.up_name name) m.cache_word_info;
    }
unfolding uploads join no_assets
uploads-keep name m = ap (λ p. p.1) (get_dynamic_info-keep no_assets name m)

module _ (name : Bytes) (m : UserManager) where
  uploads-audio :
      (info : AudioInfo)
      → uploads name (record m { cache_audio_info = m.cache_audio_info ++ (info ∷ []) })
        ≡ record (uploads name m) {
          audios = (uploads name m).audios ++ (if same info.a_up_name name then info ∷ [] else []);
        }
  uploads-audio info =
      uploads-keep name (record m { cache_audio_info = m.cache_audio_info ++ (info ∷ []) })
      ∙ rw (keep-added (λ (a : AudioInfo). a.a_up_name) name m.cache_audio_info info) refl
      ∙ sym (
          ap
            (λ (l : Lists). record l {
              audios = l.audios ++ (if same info.a_up_name name then info ∷ [] else []);
            })
            (uploads-keep name m))

  uploads-video :
      (info : VideoInfo)
      → uploads name (record m { cache_video_info = m.cache_video_info ++ (info ∷ []) })
        ≡ record (uploads name m) {
          videos = (uploads name m).videos ++ (if same info.v_up_name name then info ∷ [] else []);
        }
  uploads-video info =
      uploads-keep name (record m { cache_video_info = m.cache_video_info ++ (info ∷ []) })
      ∙ rw (keep-added (λ (v : VideoInfo). v.v_up_name) name m.cache_video_info info) refl
      ∙ sym (
          ap
            (λ (l : Lists). record l {
              videos = l.videos ++ (if same info.v_up_name name then info ∷ [] else []);
            })
            (uploads-keep name m))

module _ (J : JsonLib) (D : SqlClient) (T : TimeLib) (w : World D.Server) (msg : Bytes)
    (root : J.Value) (moment : Moment) where
  -- The text of a sender, as it is stored.
  unfoldable pub word_of : Bytes → Bytes → Bytes → Bytes → Bytes → WordInfo
  word_of sender type file_data courses title = record {
    uid = uid_of sender w.manager;
    t_id = get_table_id T moment type;
    title = title;
    up_name = sender;
    courses_str = courses;
    file_data = file_data;
  }

  -- An uploaded audio file whose statement the server accepts is answered by one message, which says so,
  -- and stands behind the uploads of its name; the uploads of every other name stay.
  pub on_upload_audio-uploads :
      (info : AudioInfo)
      → J.parse msg ≡ (true, root)
      → uploaded_audio J T moment root w.manager ≡ ok info
      → (D.execute (insert_audio info) w.server).0 ≡ true
      → (w' : World D.Server) × (on_upload_audio J D T moment msg w
          ≡ ok (audio_reply J true info ∷ [], w'))
        × ((name : Bytes)
            → uploads name w'.manager ≡ record (uploads name w.manager) {
              audios =
                  (uploads name w.manager).audios
                  ++ (if same info.a_up_name name then info ∷ [] else []);
            })
  unfolding on_upload_audio add_audio_info
  on_upload_audio-uploads info parsed described accepted = (
    (add_audio_info D info w).1,
    rw (parsed, described, accepted) refl,
    λ name. rw accepted (uploads-audio name w.manager info),
  )

  -- An uploaded video file whose statement the server accepts is answered by one message, which says so,
  -- and stands behind the uploads of its name; the uploads of every other name stay.
  pub on_upload_video-uploads :
      (info : VideoInfo)
      → J.parse msg ≡ (true, root)
      → uploaded_video J T moment root w.manager ≡ ok info
      → (D.execute (insert_video info) w.server).0 ≡ true
      → (w' : World D.Server) × (on_upload_video J D T moment msg w
          ≡ ok (video_reply J true info ∷ [], w'))
        × ((name : Bytes)
            → uploads name w'.manager ≡ record (uploads name w.manager) {
              videos =
                  (uploads name w.manager).videos
                  ++ (if same info.v_up_name name then info ∷ [] else []);
            })
  unfolding on_upload_video add_video_info
  on_upload_video-uploads info parsed described accepted = (
    (add_video_info D info w).1,
    rw (parsed, described, accepted) refl,
    λ name. rw accepted (uploads-video name w.manager info),
  )
