-- ===== src/Http/Request.antt =====
-- The name that is read off a request, and which messages are taken for requests.
use sever_code.Prelude.{
  ℕ, zero, suc, ◌≡◌, ◌≢◌, refl, arith, true, false, some, [], ◌∷◌, ◌++◌, Bytes,
}
use sever_code.Prelude.{All, replicate, Bool}
use sever_code.Http.{is_line_end, is_space, cut_at, skip_slashes, before_space, parse_http_request}

-- No byte of the text passes the test.
abbrev IsFree : (ℕ → Bool) → Bytes → Type 0
IsFree test s = All (λ c. test c ≡ false) s

IsFree-append :
    (test : ℕ → Bool) (s t : Bytes) → IsFree test s → IsFree test t → IsFree test (s ++ t)
IsFree-append test [] t h k = k
IsFree-append test (c ∷ s) t (h, hs) k = (h, IsFree-append test s t hs k)

cut_at-append :
    (test : ℕ → Bool) (s : Bytes) (c : ℕ) (rest : Bytes)
    → IsFree test s
    → test c ≡ true
    → cut_at test (s ++ (c ∷ rest)) ≡ some (s, rest)
unfolding cut_at
cut_at-append test [] c rest h k = rw k refl
cut_at-append test (d ∷ s) c rest (h, hs) k = rw (h, cut_at-append test s c rest hs k) refl

-- A name as it stands in a request: no space, no line end, no slash at the front.
abbrev pub IsRequestName : Bytes → Type 0
IsRequestName [] = Unit {0}
IsRequestName (c ∷ s) = (c ≢ b'/') × All (λ d. (d ≢ b' ') × (d ≢ 13) × (d ≢ 10)) (c ∷ s)

abbrev pub IsLine : Bytes → Type 0
IsLine s = All (λ c. (c ≢ 13) × (c ≢ 10)) s

abbrev pub IsWord : Bytes → Type 0
IsWord s = All (λ c. (c ≢ b' ') × (c ≢ 13) × (c ≢ 10)) s

-- A request line: a method, any number of slashes, a name and the version.
abbrev pub request_line : Bytes → ℕ → Bytes → Bytes → Bytes
request_line method slashes name version =
    method ++ (b' ' ∷ (replicate slashes b'/' ++ (name ++ (b' ' ∷ version))))

IsFree-line : (s : Bytes) → IsLine s → IsFree is_line_end s
IsFree-line [] h = tt
IsFree-line (c ∷ s) ((h, k), hs) = (ground arith, IsFree-line s hs)

IsFree-word : (s : Bytes) → IsWord s → IsFree is_line_end s × IsFree is_space s
IsFree-word [] h = (tt, tt)
IsFree-word (c ∷ s) ((h, k, l), hs) =
    ((ground arith, (IsFree-word s hs).0), (ground arith, (IsFree-word s hs).1))

IsFree-slashes : (n : ℕ) → IsFree is_line_end (replicate n b'/')
IsFree-slashes zero = tt
IsFree-slashes (suc n) = (refl, IsFree-slashes n)

IsWord-of_name : (name : Bytes) → IsRequestName name → IsWord name
IsWord-of_name [] h = tt
IsWord-of_name (c ∷ s) (h, hs) = hs

skip_slashes-name :
    (n : ℕ) (name rest : Bytes)
    → IsRequestName name
    → skip_slashes (replicate n b'/' ++ (name ++ (b' ' ∷ rest))) ≡ name ++ (b' ' ∷ rest)
unfolding skip_slashes
skip_slashes-name zero [] rest h = refl
skip_slashes-name zero (c ∷ s) rest (h, _) = ground arith
skip_slashes-name (suc n) name rest h = skip_slashes-name n name rest h

before_space-name :
    (name version : Bytes) → IsWord name → before_space (name ++ (b' ' ∷ version)) ≡ name
unfolding before_space
before_space-name name version h =
    rw (cut_at-append is_space name b' ' version (IsFree-word name h).1 refl, before_space) refl

IsFree-request_line :
    (method : Bytes) (slashes : ℕ) (name version : Bytes)
    → IsWord method
    → IsRequestName name
    → IsLine version
    → IsFree is_line_end (request_line method slashes name version)
IsFree-request_line method slashes name version hm hn hv =
    IsFree-append is_line_end method _ (IsFree-word method hm).0 (
      refl,
      IsFree-append is_line_end (replicate slashes b'/') _ (IsFree-slashes slashes) (
          IsFree-append is_line_end name _ (IsFree-word name (IsWord-of_name name hn)).0
            (refl, IsFree-line version hv)),
    )

-- parseHTTPRequest finds the name in a request line that a line end follows.
pub parse_http_request-name :
    (method : Bytes) (slashes : ℕ) (name version rest : Bytes) (e : ℕ)
    → IsWord method
    → IsRequestName name
    → IsLine version
    → is_line_end e ≡ true
    → parse_http_request (request_line method slashes name version ++ (e ∷ rest)) ≡ name
unfolding parse_http_request
parse_http_request-name method slashes name version rest e hm hn hv he =
    rw
      (
        cut_at-append is_line_end (request_line method slashes name version) e rest
            (IsFree-request_line method slashes name version hm hn hv) he,
        parse_http_request,
      )
      (rw
        (cut_at-append is_space method b' ' (replicate slashes b'/' ++ (name ++ (b' ' ∷ version)))
          (IsFree-word method hm).1 refl)
        (rw (skip_slashes-name slashes name version hn)
          (before_space-name name version (IsWord-of_name name hn))))
