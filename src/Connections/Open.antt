-- ===== src/Connections/Open.antt =====
-- The map holds exactly the connections that are open.
use sever_code.Prelude.{
  ℕ, ◌<◌, ◌≡◌, refl, sym, ap, ◌∙◌, arith, inl, inr, Bool-cases, Bool, true, false, ◌||◌, List, [],
  ◌∷◌,
}
use sever_code.Prelude.{Option, none, some, ◌==◌, Bytes, same, same→eq, if◌then◌else◌}
use sever_code.Database.Maps.{less}
use sever_code.Connections.{
  SessionEntry, has_key, insert, erase, on_close, on_connection, is_user_session_exist,
  get_session_by_id, place,
}

-- No key stands twice, as in every std::map.
unfoldable pub AreDistinct : List SessionEntry → Type 0
AreDistinct [] = Unit
AreDistinct (e ∷ l) = (has_key e.key l ≡ false) × AreDistinct l

same_comm : (s t : Bytes) → same s t ≡ same t s
unfolding same
same_comm [] [] = refl
same_comm [] (b ∷ t) = refl
same_comm (a ∷ s) [] = refl
same_comm (a ∷ s) (b ∷ t) = ground (arith, same_comm s t)

has_key-erase :
    (key k : Bytes) (l : List SessionEntry)
    → AreDistinct l
    → has_key k (erase key l) ≡ (if same key k then false else has_key k l)
unfolding has_key erase AreDistinct
has_key-erase key k [] d = ground arith
has_key-erase key k (e ∷ l) (fresh, d) = elim (Bool-cases (same key e.key)) [
  | inl here ↦ elim (Bool-cases (same key k)) [
    | inl s ↦
        rw (here, s)
          (ap (λ x. has_key x l) (sym (same→eq key k s) ∙ same→eq key e.key here) ∙ fresh)
    | inr s ↦
        rw (here, s)
          (sym (
            ap (λ b. b || has_key k l)
              (ap (same k) (sym (same→eq key e.key here)) ∙ same_comm k key ∙ s)))
  ]
  | inr there ↦ elim (Bool-cases (same key k)) [
    | inl s ↦
        rw (there, s)
          (ap (λ b. b || has_key k (erase key l))
              (ap (λ x. same x e.key) (sym (same→eq key k s)) ∙ there)
            ∙ has_key-erase key k l d
            ∙ rw s refl)
    | inr s ↦ rw (there, s) (ap (λ b. same k e.key || b) (has_key-erase key k l d ∙ rw s refl))
  ]
]

erase-AreDistinct :
    (key : Bytes) (l : List SessionEntry) → AreDistinct l → AreDistinct (erase key l)
unfolding erase AreDistinct
erase-AreDistinct key [] d = tt
erase-AreDistinct key (e ∷ l) (fresh, d) = elim (Bool-cases (same key e.key)) [
  | inl here ↦ rw here d
  | inr there ↦
      rw there (has_key-erase key e.key l d ∙ rw (there, fresh) refl, erase-AreDistinct key l d)
]

-- What a sequence of callbacks makes of an empty map.
unfoldable pub after : List (Bool × Bytes) → List SessionEntry → List SessionEntry
after [] l = l
after (c ∷ calls) l = after calls (on_connection c.0 c.1 l)

-- Is the connection open, if it was `open_before`?
unfoldable pub is_open : Bytes → List (Bool × Bytes) → Bool → Bool
is_open key [] open_before = open_before
is_open key (c ∷ calls) open_before = is_open key calls (if same c.1 key then c.0 else open_before)

has_key-place :
    (k : Bytes) (e : SessionEntry) (l : List SessionEntry)
    → has_key k (place e l) ≡ (same k e.key || has_key k l)
unfolding has_key place
has_key-place k e [] = refl
has_key-place k e (x ∷ l) = elim (Bool-cases (less e.key x.key)) [
  | inl first ↦ rw first refl
  | inr behind ↦
      rw (behind, has_key-place k e l) (or_swap (same k x.key) (same k e.key) (has_key k l))
]
  where
    or_swap : (a b c : Bool) → (a || (b || c)) ≡ (b || (a || c))
    or_swap true true c = refl
    or_swap true false c = refl
    or_swap false true c = refl
    or_swap false false c = refl

place-AreDistinct :
    (e : SessionEntry) (l : List SessionEntry)
    → has_key e.key l ≡ false
    → AreDistinct l
    → AreDistinct (place e l)
unfolding has_key AreDistinct place
place-AreDistinct e [] new d = (refl, tt)
place-AreDistinct e (x ∷ l) new (fresh, d) = elim (Bool-cases (less e.key x.key)) [
  | inl first ↦ rw first (new, (fresh, d))
  | inr behind ↦ rw behind (
    has_key-place x.key e l ∙ ground (arith, new, fresh, same_comm x.key e.key),
    place-AreDistinct e l (ground (arith, new)) d,
  )
]

on_connection-AreDistinct :
    (connected : Bool) (key : Bytes) (l : List SessionEntry)
    → AreDistinct l
    → AreDistinct (on_connection connected key l)
unfolding on_connection on_close insert AreDistinct
on_connection-AreDistinct false key l d = erase-AreDistinct key l d
on_connection-AreDistinct true key l d = elim (Bool-cases (has_key key l)) [
  | inl old ↦ rw old d
  | inr new ↦ rw new (place-AreDistinct _ l new d)
]

has_key-on_connection :
    (connected : Bool) (key k : Bytes) (l : List SessionEntry)
    → AreDistinct l
    → has_key k (on_connection connected key l) ≡ (if same key k then connected else has_key k l)
unfolding on_connection on_close insert has_key
has_key-on_connection false key k l d = has_key-erase key k l d
has_key-on_connection true key k l d = elim (Bool-cases (has_key key l)) [
  | inl old ↦ elim (Bool-cases (same key k)) [
    | inl s ↦ rw (old, s) (ap (λ x. has_key x l) (sym (same→eq key k s)) ∙ old)
    | inr s ↦ rw (old, s) refl
  ]
  | inr new ↦ rw new (
      has_key-place k _ l
      ∙ ap (λ b. b || has_key k l) (same_comm k key)
      ∙ or_if (same key k) (has_key k l))
]
  where
    or_if : (b c : Bool) → (b || c) ≡ (if b then true else c)
    or_if true c = refl
    or_if false c = refl

has_key-from :
    (calls : List (Bool × Bytes)) (k : Bytes) (l : List SessionEntry)
    → AreDistinct l
    → has_key k (after calls l) ≡ is_open k calls (has_key k l)
unfolding after is_open
has_key-from [] k l d = refl
has_key-from (c ∷ calls) k l d =
    has_key-from calls k (on_connection c.0 c.1 l) (on_connection-AreDistinct c.0 c.1 l d)
    ∙ ap (is_open k calls) (has_key-on_connection c.0 c.1 k l d)

-- After any sequence of connections that open and close, the map holds a session for exactly the
-- connections whose last callback was an opening.
pub has_key-after :
    (calls : List (Bool × Bytes)) (k : Bytes) → has_key k (after calls []) ≡ is_open k calls false
unfolding has_key AreDistinct
has_key-after calls k = has_key-from calls k [] tt

nobody-erase :
    (n : ℕ) (key : Bytes) (l : List SessionEntry)
    → is_user_session_exist n l ≡ false
    → is_user_session_exist n (erase key l) ≡ false
unfolding is_user_session_exist erase
nobody-erase n key [] h = refl
nobody-erase n key (e ∷ l) h = ground (arith, h, nobody-erase n key l)

nobody-place :
    (n : ℕ) (e : SessionEntry) (l : List SessionEntry)
    → (e.user_id == n) ≡ false
    → is_user_session_exist n l ≡ false
    → is_user_session_exist n (place e l) ≡ false
unfolding is_user_session_exist place
nobody-place n e [] other h = rw other refl
nobody-place n e (x ∷ l) other h = ground (arith, other, h, nobody-place n e l other)

nobody-on_connection :
    (n : ℕ) (connected : Bool) (key : Bytes) (l : List SessionEntry)
    → 0 < n
    → is_user_session_exist n l ≡ false
    → is_user_session_exist n (on_connection connected key l) ≡ false
unfolding is_user_session_exist on_connection on_close insert
nobody-on_connection n false key l pos h = nobody-erase n key l h
nobody-on_connection n true key l pos h =
    ground (arith, h, nobody-place n (record { key = key; user_id = 0 }) l (ground arith) h)

nobody-after :
    (n : ℕ) (calls : List (Bool × Bytes)) (l : List SessionEntry)
    → 0 < n
    → is_user_session_exist n l ≡ false
    → is_user_session_exist n (after calls l) ≡ false
unfolding after
nobody-after n [] l pos h = h
nobody-after n (c ∷ calls) l pos h =
    nobody-after n calls (on_connection c.0 c.1 l) pos (nobody-on_connection n c.0 c.1 l pos h)

-- No session is ever found for a user number other than 0, whoever has logged in.
pub is_user_session_exist-after :
    (n : ℕ) (calls : List (Bool × Bytes)) → 0 < n → is_user_session_exist n (after calls []) ≡ false
unfolding is_user_session_exist
is_user_session_exist-after n calls pos = nobody-after n calls [] pos refl

-- GetSessionByID finds a session exactly where IsUserSessionExsit tells of one.
pub found : Option SessionEntry → Bool
found none = false
found (some e) = true

pub get_session_by_id-exist :
    (n : ℕ) (l : List SessionEntry) → found (get_session_by_id n l) ≡ is_user_session_exist n l
unfolding found get_session_by_id is_user_session_exist
get_session_by_id-exist n [] = refl
get_session_by_id-exist n (e ∷ l) = ground (arith, get_session_by_id-exist n l)
