-- ===== src/Server/Grown.antt =====
-- What the handlers of ClientSession.cpp leave of the lists in memory (UserManager.h).
use sever_code.Prelude.{◌≡◌, refl, sym, ap, ◌∙◌, List, [], ◌∷◌, ◌++◌, append-nil, append_assoc}
use sever_code.Prelude.{inl, inr, Bool-cases, Bytes}
use sever_code.Users.Types.{User, VideoInfo, AudioInfo, WordInfo, UserManager, SqlClient, World}
use sever_code.Users.Statements.{
  insert_user, insert_word, insert_video, insert_audio, insert_browse, insert_collect,
  delete_collect,
}
use sever_code.Users.Account.{add_user}
use sever_code.Users.Assets.{
  add_word_info, add_video_info, add_audio_info, add_browse_info, add_collect_info,
}
use sever_code.Users.Collect.{remove_one_collect_info, exists_collect}

-- The second list starts with the first.
abbrev pub Extends : {A : Type 0} → List A → List A → Type 0
Extends {A} xs ys = (zs : List A) × (ys ≡ xs ++ zs)

-- The users, the assets and the browse records of the second manager start with those of the first,
-- and the users by number are the same.
pub record Grows (m m' : UserManager) : Type 0 where
  pub users : Extends m.cached_users m'.cached_users
  pub videos : Extends m.cache_video_info m'.cache_video_info
  pub audios : Extends m.cache_audio_info m'.cache_audio_info
  pub words : Extends m.cache_word_info m'.cache_word_info
  pub browses : Extends m.cache_browse_info m'.cache_browse_info
  pub numbers : m'.map_users ≡ m.map_users

Extends-refl : {A : Type 0} (xs : List A) → Extends xs xs
Extends-refl xs = ([], sym (append-nil xs))

Extends-trans : {A : Type 0} (xs ys zs : List A) → Extends xs ys → Extends ys zs → Extends xs zs
Extends-trans xs ys zs (us, e) (vs, f) = (us ++ vs, f ∙ ap (λ t. t ++ vs) e ∙ append_assoc xs us vs)

pub Grows-same :
    (m m' : UserManager)
    → m'.cached_users ≡ m.cached_users
    → m'.cache_video_info ≡ m.cache_video_info
    → m'.cache_audio_info ≡ m.cache_audio_info
    → m'.cache_word_info ≡ m.cache_word_info
    → m'.cache_browse_info ≡ m.cache_browse_info
    → m'.map_users ≡ m.map_users
    → Grows m m'
Grows-same m m' u v a t b n = record {
  numbers = n;
  users = ([], u ∙ sym (append-nil m.cached_users));
  videos = ([], v ∙ sym (append-nil m.cache_video_info));
  audios = ([], a ∙ sym (append-nil m.cache_audio_info));
  words = ([], t ∙ sym (append-nil m.cache_word_info));
  browses = ([], b ∙ sym (append-nil m.cache_browse_info));
}

pub Grows-refl : (m : UserManager) → Grows m m
Grows-refl m = Grows-same m m refl refl refl refl refl refl

pub Grows-trans : (m n o : UserManager) → Grows m n → Grows n o → Grows m o
Grows-trans m n o g h = record {
  numbers = h.numbers ∙ g.numbers;
  users = Extends-trans _ _ _ g.users h.users;
  videos = Extends-trans _ _ _ g.videos h.videos;
  audios = Extends-trans _ _ _ g.audios h.audios;
  words = Extends-trans _ _ _ g.words h.words;
  browses = Extends-trans _ _ _ g.browses h.browses;
}

module _ (D : SqlClient) (w : World D.Server) where
  pub add_user-Grows : (u : User) → Grows w.manager (add_user D u w).2.manager
  unfolding add_user
  add_user-Grows u = elim (Bool-cases ((D.execute (insert_user u) w.server).0)) [
    | inl e ↦ rw e (record {
      numbers = refl;
      users = (_ ∷ [], refl);
      videos = Extends-refl w.manager.cache_video_info;
      audios = Extends-refl w.manager.cache_audio_info;
      words = Extends-refl w.manager.cache_word_info;
      browses = Extends-refl w.manager.cache_browse_info;
    })
    | inr e ↦ rw e (Grows-same _ _ refl refl refl refl refl refl)
  ]

  pub add_word_info-Grows : (info : WordInfo) → Grows w.manager (add_word_info D info w).1.manager
  unfolding add_word_info
  add_word_info-Grows info = elim (Bool-cases ((D.execute (insert_word info) w.server).0)) [
    | inl e ↦ rw e (record {
      numbers = refl;
      users = Extends-refl w.manager.cached_users;
      videos = Extends-refl w.manager.cache_video_info;
      audios = Extends-refl w.manager.cache_audio_info;
      words = (_ ∷ [], refl);
      browses = Extends-refl w.manager.cache_browse_info;
    })
    | inr e ↦ rw e (Grows-refl w.manager)
  ]

  pub add_video_info-Grows :
      (info : VideoInfo) → Grows w.manager (add_video_info D info w).1.manager
  unfolding add_video_info
  add_video_info-Grows info = elim (Bool-cases ((D.execute (insert_video info) w.server).0)) [
    | inl e ↦ rw e (record {
      numbers = refl;
      users = Extends-refl w.manager.cached_users;
      videos = (_ ∷ [], refl);
      audios = Extends-refl w.manager.cache_audio_info;
      words = Extends-refl w.manager.cache_word_info;
      browses = Extends-refl w.manager.cache_browse_info;
    })
    | inr e ↦ rw e (Grows-refl w.manager)
  ]

  pub add_audio_info-Grows :
      (info : AudioInfo) → Grows w.manager (add_audio_info D info w).1.manager
  unfolding add_audio_info
  add_audio_info-Grows info = elim (Bool-cases ((D.execute (insert_audio info) w.server).0)) [
    | inl e ↦ rw e (record {
      numbers = refl;
      users = Extends-refl w.manager.cached_users;
      videos = Extends-refl w.manager.cache_video_info;
      audios = (_ ∷ [], refl);
      words = Extends-refl w.manager.cache_word_info;
      browses = Extends-refl w.manager.cache_browse_info;
    })
    | inr e ↦ rw e (Grows-refl w.manager)
  ]

  pub add_browse_info-Grows :
      (id uid type title : Bytes)
      → Grows w.manager (add_browse_info D id uid type title w).1.manager
  unfolding add_browse_info
  add_browse_info-Grows id uid type title =
      elim (Bool-cases ((D.execute (insert_browse id uid type title) w.server).0)) [
        | inl e ↦ rw e (record {
          numbers = refl;
          users = Extends-refl w.manager.cached_users;
          videos = Extends-refl w.manager.cache_video_info;
          audios = Extends-refl w.manager.cache_audio_info;
          words = Extends-refl w.manager.cache_word_info;
          browses = (_ ∷ [], refl);
        })
        | inr e ↦ rw e (Grows-refl w.manager)
      ]

  pub add_collect_info-Grows :
      (id uid type title : Bytes)
      → Grows w.manager (add_collect_info D id uid type title w).1.manager
  unfolding add_collect_info
  add_collect_info-Grows id uid type title =
      elim (Bool-cases ((D.execute (insert_collect id uid type title) w.server).0)) [
        | inl e ↦ rw e (Grows-same _ _ refl refl refl refl refl refl)
        | inr e ↦ rw e (Grows-refl w.manager)
      ]

  pub remove_one_collect_info-Grows :
      (uid title type : Bytes)
      → Grows w.manager (remove_one_collect_info D uid title type w).1.manager
  unfolding remove_one_collect_info
  remove_one_collect_info-Grows uid title type =
      elim (Bool-cases (exists_collect uid title type w.manager.cache_collect_info)) [
        | inl e ↦ elim (Bool-cases ((D.execute (delete_collect uid title type) w.server).0)) [
          | inl f ↦ rw (e, f) (Grows-same _ _ refl refl refl refl refl refl)
          | inr f ↦ rw (e, f) (Grows-refl w.manager)
        ]
        | inr e ↦ rw e (Grows-refl w.manager)
      ]
