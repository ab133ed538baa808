-- ===== src/Http/Process.antt =====
-- OnRead and Process of FileServer/FileSession.cpp: a message is a part of an upload or an HTTP
-- request. Process always returns true, so OnRead never closes the connection.
use sever_code.Prelude.{
  Bool, true, false, Option, List, [], ◌∷◌, ◌++◌, map, Bytes, Outcome, ok, ◌>>=◌,
}
use sever_code.Session.{JsonLib}
use sever_code.Upload.{FileLib, Place, Event, replied, on_upload_file}
use sever_code.Http.{Media, is_http_protocol}
use sever_code.Http.Answers.{on_http_response}

pub data MsgFile : Type 0 where
  m_type_normal m_type_upload m_type_http m_type_download : MsgFile

-- The kind of a message, by whether it is JSON and how it begins.
unfoldable pub command_of : Bool → Bytes → MsgFile
unfolding is_http_protocol
command_of true buffer = m_type_upload
command_of false buffer = elim (is_http_protocol buffer) [
  | true ↦ m_type_http
  | false ↦ m_type_upload
]

module _ (J : JsonLib) (F : FileLib J) (opens : Bytes → Bool)
    (duration : Bytes → Option Bytes) where
  -- The files as they are on disk.
  abbrev pub media_at : Place → Media
  media_at p = record { opens = opens; content = p.disk; duration = duration }

  unfoldable pub switch : MsgFile → Bytes → Place → Outcome (List Event × Place)
  unfolding on_upload_file on_http_response
  switch m_type_normal buffer p = ok ([], p)
  switch m_type_upload buffer p = on_upload_file J F buffer p
  switch m_type_http buffer p = ok (map replied (on_http_response (media_at p) buffer), p)
  switch m_type_download buffer p = ok ([], p)

  unfoldable pub process : Bytes → Place → Outcome (List Event × Place)
  unfolding command_of switch
  process buffer p = switch (command_of (J.parse buffer).0 buffer) buffer p

  -- Messages in turn.
  unfoldable pub on_reads : List Bytes → Place → Outcome (List Event × Place)
  unfolding process
  on_reads [] p = ok ([], p)
  on_reads (m ∷ messages) p = do
    (first, q) ← process m p
    (rest, w) ← on_reads messages q
    ok (first ++ rest, w)
