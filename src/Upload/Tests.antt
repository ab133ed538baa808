-- ===== src/Upload/Tests.antt =====
-- An upload of four bytes in two pieces.
use sever_code.Prelude.{◌≡◌, refl, arith, [], ◌∷◌, text, ok}
use sever_code.Session.Small.{json}
use sever_code.Upload.{Place, finished, close, forget, on_upload_file}
use sever_code.Upload.Steps.{idle, Tidies, on_upload_file-Tidies, on_uploads, joined}
use sever_code.Upload.Whole.{path_of, opens_at, on_uploads-joined}
use sever_code.Upload.Small.{
  files, start, header, header_json, header-parsed, header-sized, header-named, header-int,
  length-pieces,
}

on_uploads-joined_example :
    (w : Place) × (on_uploads json files (header ∷ (1 ∷ 2 ∷ 3 ∷ []) ∷ (4 ∷ []) ∷ []) start
      ≡ ok (
        finished json files
            ((opens_at json files header header_json (text "a.png") 4 start).session),
        w,
      ))
    × (w.session
        ≡ forget (close ((opens_at json files header header_json (text "a.png") 4 start).session)))
    × (w.disk (path_of json files header header_json (text "a.png") 4)
        ≡ joined ((1 ∷ 2 ∷ 3 ∷ []) ∷ (4 ∷ []) ∷ []))
on_uploads-joined_example =
    on_uploads-joined json files header header_json (text "a.png") 4 (1 ∷ 2 ∷ 3 ∷ [])
      ((4 ∷ []) ∷ []) start refl refl header-parsed header-sized header-named header-int refl
      ((omega arith, refl), ((omega arith, refl), tt)) length-pieces (omega arith)

on_upload_file-Tidies_example : Tidies (on_upload_file json files (text "no file yet") start)
on_upload_file-Tidies_example =
    on_upload_file-Tidies json files (text "no file yet") start (idle refl refl refl)
