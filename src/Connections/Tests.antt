-- ===== src/Connections/Tests.antt =====
-- Two connections, one of which is closed.
use sever_code.Prelude.{◌≡◌, Bool, true, false, List, [], ◌∷◌, Bytes, text}
use sever_code.Connections.{has_key}
use sever_code.Connections.Open.{after, is_open, has_key-after}

abbrev calls : List (Bool × Bytes)
calls = (true, text "0x1") ∷ (true, text "0x2") ∷ (false, text "0x1") ∷ []

has_key-after_example : has_key (text "0x2") (after calls []) ≡ is_open (text "0x2") calls false
has_key-after_example = has_key-after calls (text "0x2")
