-- ===== src/Users/Selection.antt =====
-- The assets that a user has browsed or collected, as what the rows ask for (UserManager.cpp).
use sever_code.Prelude.{
  ℕ, ◌<◌, ◌≡◌, refl, sym, ap, ◌∙◌, inl, inr, Bool-cases, Bool, true, false, none, some,
}
use sever_code.Prelude.{
  List, [], ◌∷◌, ◌++◌, append_assoc, append-nil, length, Bytes, text, same, same→eq, keep,
  if◌then◌else◌,
}
use sever_code.Prelude.{Outcome, ok, ◌>>=◌, >>=-eq-ok}
use sever_code.Sql.{Column, Row, QueryResult, new_query_result}
use sever_code.Sql.Rows.{row_text, IsAt, IsAt-text_of}
use sever_code.Sql.Loop.{sized}
use sever_code.Sql.Fold.{fold_rows, each_row-fold}
use sever_code.Users.Types.{
  User, new_user, UserManager, WordInfo, AudioInfo, VideoInfo, SqlClient, World,
}
use sever_code.Users.Statements.{select_browse, select_collect}
use sever_code.Users.Account.{find_user, get_user_info_by_username}
use sever_code.Users.Assets.{
  push_if, push_if-keep, push_all, push_all-append, Lists, get_video_info, get_audio_info,
  get_word_info, get_dynamic_info,
}
use sever_code.Users.Titles.{
  titled_video, titled_audio, titled_word, push_titled, select_row, selection_of, get_selection,
  get_history_info, get_collect_info,
}

-- An entry: the type and the title that a row holds.
abbrev pub Entry : Type 0
Entry = Bytes × Bytes

-- The entries that the rows hold.
unfoldable pub entries : List Column → Bytes → Bytes → List Row → Outcome (List Entry)
unfolding row_text
entries columns type_column title_column [] = ok []
entries columns type_column title_column (row ∷ rows) = do
  type ← row_text columns row type_column
  title ← row_text columns row title_column
  es ← entries columns type_column title_column rows
  ok ((type, title) ∷ es)

-- The assets of one kind that the entries ask for, entry by entry.
module _ {A : Type 0} (kind : Bytes) (title_of : A → Bytes) (assets : List A) where
  unfoldable pub asked : List Entry → List A
  asked [] = []
  asked (e ∷ es) =
      (if same e.0 kind then keep (λ a. same (title_of a) e.1) assets else []) ++ asked es

unfoldable pub selected : UserManager → List Entry → Lists
unfolding asked
selected m es = record {
  videos = asked (text "video") (λ (v : VideoInfo). v.v_title) m.cache_video_info es;
  audios = asked (text "audio") (λ (a : AudioInfo). a.a_title) m.cache_audio_info es;
  words = asked (text "text") (λ (t : WordInfo). t.title) m.cache_word_info es;
}

unfoldable pub join : Lists → Lists → Lists
join k l = record {
  videos = k.videos ++ l.videos;
  audios = k.audios ++ l.audios;
  words = k.words ++ l.words;
}

join_none : (m : UserManager) (l : Lists) → join l (selected m []) ≡ l
unfolding join selected asked
join_none m l = rw (append-nil l.videos, append-nil l.audios, append-nil l.words) refl

distinct : (s t u : Bytes) → same t u ≡ false → same s t ≡ true → same s u ≡ false
distinct s t u h e = rw (same→eq s t e) h

module _ {A : Type 0} (test : A → Bool) where
  push_if-join :
      (list items rest : List A)
      → push_if test list (push_all [] items) ++ rest ≡ list ++ (keep test items ++ rest)
  push_if-join list items rest =
      rw (push_all-append [] items, push_if-keep test list items)
        (append_assoc list (keep test items) rest)

push_titled-selected :
    (m : UserManager) (e : Entry) (es : List Entry) (l : Lists)
    → join (push_titled m e.0 e.1 l) (selected m es) ≡ join l (selected m (e ∷ es))
unfolding push_titled join selected get_video_info get_audio_info get_word_info asked titled_video
    titled_audio titled_word same
push_titled-selected m e es l = elim (Bool-cases (same e.0 (text "video"))) [
  | inl v ↦
      rw
        (
          v,
          distinct e.0 (text "video") (text "audio") refl v,
          distinct e.0 (text "video") (text "text") refl v,
        )
        (ap
          (λ x. record {
            videos = x;
            audios = l.audios ++ (selected m es).audios;
            words = l.words ++ (selected m es).words;
          })
          (push_if-join (titled_video e.1) l.videos m.cache_video_info ((selected m es).videos)))
  | inr nv ↦ elim (Bool-cases (same e.0 (text "audio"))) [
    | inl a ↦
        rw (nv, a, distinct e.0 (text "audio") (text "text") refl a)
          (ap
            (λ x. record {
              videos = l.videos ++ (selected m es).videos;
              audios = x;
              words = l.words ++ (selected m es).words;
            })
            (push_if-join (titled_audio e.1) l.audios m.cache_audio_info ((selected m es).audios)))
    | inr na ↦ elim (Bool-cases (same e.0 (text "text"))) [
      | inl t ↦
          rw (nv, na, t)
            (ap
              (λ x. record {
                videos = l.videos ++ (selected m es).videos;
                audios = l.audios ++ (selected m es).audios;
                words = x;
              })
              (push_if-join (titled_word e.1) l.words m.cache_word_info ((selected m es).words)))
      | inr nt ↦ rw (nv, na, nt) refl
    ]
  ]
]

module _ (m : UserManager) (columns : List Column) (type_column title_column : Bytes) where
  take_row : Row → Lists → Outcome Lists
  take_row row l = do
    type ← row_text columns row type_column
    title ← row_text columns row title_column
    ok (push_titled m type title l)

  select_row-take_row :
      (row : Row) (rest : List Row) (r : QueryResult) (l : Lists)
      → IsAt columns row rest r
      → select_row m type_column title_column r l ≡ take_row row l
  unfolding select_row take_row
  select_row-take_row row rest r l at =
      rw
        (
          IsAt-text_of columns row rest r type_column at,
          IsAt-text_of columns row rest r title_column at,
        )
        refl

  fold_rows-selected :
      (rows : List Row) (es : List Entry) (l : Lists)
      → entries columns type_column title_column rows ≡ ok es
      → fold_rows take_row rows l ≡ ok (join l (selected m es))
  unfolding fold_rows entries take_row
  fold_rows-selected [] es l e =
      ap ok (sym (join_none m l)) ∙ ap (λ o. o >>= λ x. ok (join l (selected m x))) e
  fold_rows-selected (row ∷ rows) es l e =
      let (type, et, e₁) = >>=-eq-ok (row_text columns row type_column) _ e in
      let (title, en, e₂) = >>=-eq-ok (row_text columns row title_column) _ e₁ in
      let (es', ee, e₃) = >>=-eq-ok (entries columns type_column title_column rows) _ e₂ in
      rw (et, en) (fold_rows-selected rows es' (push_titled m type title l) ee)
      ∙ ap ok (push_titled-selected m (type, title) es' l)
      ∙ ap (λ o. o >>= λ x. ok (join l (selected m x))) e₃

get_user_info-found :
    (name : Bytes) (m : UserManager) (u : User)
    → find_user name m.cached_users ≡ some u
    → get_user_info_by_username name new_user m ≡ (true, u)
unfolding get_user_info_by_username
get_user_info-found name m u e = rw (e, get_user_info_by_username) refl

get_user_info-unknown :
    (name : Bytes) (m : UserManager)
    → find_user name m.cached_users ≡ none
    → get_user_info_by_username name new_user m ≡ (false, new_user)
unfolding get_user_info_by_username
get_user_info-unknown name m e = rw (e, get_user_info_by_username) refl

module _ (D : SqlClient) (w : World D.Server) (user_name : Bytes) (l : Lists) where
  get_selection_unknown :
      (select : Bytes → Bytes) (type_column title_column : Bytes)
      → find_user user_name w.manager.cached_users ≡ none
      → get_selection D select type_column title_column l user_name w ≡ ok (false, l, w)
  unfolding get_selection
  get_selection_unknown select type_column title_column e =
      rw (get_user_info-unknown user_name w.manager e, get_selection) refl

  module _ (u : User) (columns : List Column) (row : Row) (rest : List Row) (n : ℕ) (s : D.Server)
      (es : List Entry) where
    get_selection_rows :
        (select : Bytes → Bytes) (type_column title_column : Bytes)
        → find_user user_name w.manager.cached_users ≡ some u
        → 0 < length columns
        → D.query (select u.u_id) w.server
          ≡ (some (new_query_result (record { columns = columns; rows = row ∷ rest }) n), s)
        → entries columns type_column title_column (row ∷ rest) ≡ ok es
        → get_selection D select type_column title_column l user_name w
          ≡ ok (true, join l (selected w.manager es), record w { server = s })
    unfolding get_selection selection_of
    get_selection_rows select type_column title_column known wide q e =
        rw (get_user_info-found user_name w.manager u known, get_selection)
          (rw (q, selection_of)
            (rw
              (each_row-fold sized (select_row w.manager type_column title_column) columns
                  (take_row w.manager columns type_column title_column)
                  (select_row-take_row w.manager columns type_column title_column) wide row rest n l
                ∙ fold_rows-selected w.manager columns type_column title_column (row ∷ rest) es l e)
              (ap (λ p. ok (true, join l (selected w.manager es), record w { server = p.1 })) q)))

    -- For a known user whose history the database returns as rows, `GetHistoryInfoFromDB` returns
    -- true and puts behind the lists of the caller, entry by entry in the order of the rows, all
    -- assets in memory whose kind and title the entry names.
    pub get_history_info_rows :
        find_user user_name w.manager.cached_users ≡ some u
        → 0 < length columns
        → D.query (select_browse u.u_id) w.server
          ≡ (some (new_query_result (record { columns = columns; rows = row ∷ rest }) n), s)
        → entries columns (text "b_assetsType") (text "b_browseTitle") (row ∷ rest) ≡ ok es
        → get_history_info D l user_name w
          ≡ ok (true, join l (selected w.manager es), record w { server = s })
    unfolding get_history_info
    get_history_info_rows = get_selection_rows select_browse _ _

    -- For a known user whose collection the database returns as rows, `GetCollectInfoFromDB` returns
    -- true and puts behind the lists of the caller, entry by entry in the order of the rows, all
    -- assets in memory whose kind and title the entry names.
    pub get_collect_info_rows :
        find_user user_name w.manager.cached_users ≡ some u
        → 0 < length columns
        → D.query (select_collect u.u_id) w.server
          ≡ (some (new_query_result (record { columns = columns; rows = row ∷ rest }) n), s)
        → entries columns (text "c_assetsType") (text "c_assetsTitle") (row ∷ rest) ≡ ok es
        → get_collect_info D l user_name w
          ≡ ok (true, join l (selected w.manager es), record w { server = s })
    unfolding get_collect_info
    get_collect_info_rows = get_selection_rows select_collect _ _

-- `GetDynamicInfoFromDB` puts behind the lists of the caller, in order, the assets in memory that
-- the user of that name has uploaded, and returns true.
pub get_dynamic_info-keep :
    (l : Lists) (user_name : Bytes) (m : UserManager)
    → get_dynamic_info l user_name m ≡ (
      true,
      join l (record {
        videos = keep (λ (v : VideoInfo). same v.v_up_name user_name) m.cache_video_info;
        audios = keep (λ (a : AudioInfo). same a.a_up_name user_name) m.cache_audio_info;
        words = keep (λ (t : WordInfo). same t.up_name user_name) m.cache_word_info;
      }),
    )
unfolding get_dynamic_info join get_video_info get_audio_info get_word_info
get_dynamic_info-keep l user_name m =
    rw
      (
        push_all-append [] m.cache_video_info,
        push_all-append [] m.cache_audio_info,
        push_all-append [] m.cache_word_info,
        push_if-keep (λ (v : VideoInfo). same v.v_up_name user_name) l.videos m.cache_video_info,
        push_if-keep (λ (a : AudioInfo). same a.a_up_name user_name) l.audios m.cache_audio_info,
        push_if-keep (λ (t : WordInfo). same t.up_name user_name) l.words m.cache_word_info,
      )
      refl
