-- ===== src/Server/Tests.antt =====
-- A user of a taken name registers while another is connected.
use sever_code.Prelude.{◌≡◌, refl, true, false, some, [], ◌∷◌, ◌++◌, Bytes, text, ok, same}
use sever_code.Connections.{has_key, on_connection, place}
use sever_code.Users.Types.{User, World}
use sever_code.Users.Account.{find_user, add_user}
use sever_code.Session.{number, msg_type_register}
use sever_code.Session.TableId.{get_table_id}
use sever_code.Session.Models.{state_text}
use sever_code.Session.Login.{login_state}
use sever_code.Session.Process.{on_read}
use sever_code.Session.Small.{
  get, parse, members, split, as_int, value, as_string, as_bool, json, clock, moment, client,
  empty_manager,
}
use sever_code.Server.{ServerState, Reach, connection, message, here, next}
use sever_code.Server.Grown.{Grows}
use sever_code.Server.Kept.{Reach-Grows, Reach-login_state}

abbrev old_ann : User
old_ann = record {
  userid = 1;
  u_id = [];
  username = text "ann";
  password = text "old";
  custimface = [];
  sex = true;
}

abbrev pub new_ann : User
new_ann = record {
  userid = 0;
  u_id = get_table_id clock moment (text "user");
  username = text "ann";
  password = text "new";
  custimface = [];
  sex = false;
}

abbrev taken : World Unit
taken = record { manager = record empty_manager { cached_users = old_ann ∷ [] }; server = tt }

abbrev first : ServerState Unit
first = record { sessions = []; world = taken }

abbrev opened : ServerState Unit
opened = record { sessions = on_connection true (text "0x1") []; world = taken }

abbrev registered : World Unit
registered = (add_user client new_ann taken).2

abbrev last : ServerState Unit
last = record { sessions = on_connection true (text "0x1") []; world = registered }

abbrev pub buf : Bytes
buf =
    text "{msgType"
    ++ (0
        ∷ (text "#f"
            ++ (0
                ∷ (text "username"
                    ++ (0
                        ∷ (text "ann"
                            ++ (0 ∷ (text "password" ++ (0 ∷ (text "new" ++ (0 ∷ [])))))))))))

read :
    on_read json client clock moment buf taken
    ≡ ok (false, (state_text json (number msg_type_register) 1 [] ∷ [], registered))
unfolding on_read get parse members split same as_int value as_string as_bool
read = refl

is_open : has_key (text "0x1") opened.sessions ≡ true
unfolding has_key on_connection place same
is_open = refl

run : Reach json client clock first last
run = next (next here (connection first true (text "0x1"))) (
    message opened (text "0x1") moment buf false
      (state_text json (number msg_type_register) 1 [] ∷ []) registered is_open read)

Reach-Grows_example : Grows first.world.manager last.world.manager
Reach-Grows_example = Reach-Grows json client clock run

old_found : find_user (text "ann") (old_ann ∷ []) ≡ some old_ann
unfolding find_user same
old_found = refl

Reach-login_state_example :
    login_state (text "ann") (text "old") last.world.manager
    ≡ login_state (text "ann") (text "old") first.world.manager
Reach-login_state_example =
    Reach-login_state json client clock first last (text "ann") (text "old") old_ann run old_found
