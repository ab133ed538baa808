-- ===== src/FileServer/Provided.antt =====
-- What the HTTP server does for a request, and where it looks.
use sever_code.Prelude.{
  ℕ, ◌<◌, ◌≤◌, ◌≡◌, ◌≢◌, refl, ap, arith, true, false, Option, none, some, ◌++◌, Bytes, length,
  get_elem?, leb, ok, fault, bad_access,
}
use sever_code.Upload.{dir_of}
use sever_code.FileServer.{
  Disk, provided, file_path, directory_of, on_get, provide, address, reserve,
}

below : (n size : ℕ) → n < size → leb size n ≡ false
below n size h = ground arith

above : (n size : ℕ) → size ≤ n → leb size n ≡ true
above n size h = ground arith

-- For a file that can be opened the handler announces the size of its content. At every offset below
-- that size the provider then takes the address of an element of an empty vector, which the model
-- counts as a fault; from the size on it returns false.
pub on_get-provide :
    (D : Disk) (path : Bytes)
    → D.opens (file_path path) ≡ true
    → (size : ℕ) × (on_get D path ≡ provided size (directory_of path).1 (file_path path))
      × (size ≡ length (D.content (file_path path)))
      × ((offset : ℕ) → offset < size → provide D (file_path path) offset ≡ fault bad_access)
      × ((offset : ℕ) → size ≤ offset → provide D (file_path path) offset ≡ ok none)
unfolding on_get provide address reserve
on_get-provide D path opens = (
  length (D.content (file_path path)),
  rw (opens) refl,
  refl,
  λ offset h. rw (opens) (rw (below offset _ h) refl),
  λ offset h. rw (opens) (rw (above offset _ h) refl),
)

letters-ne : ◌≢◌ {A = Option ℕ} (some b'P') (some b'p')
letters-ne e = ground arith

-- No path of the HTTP server is one where an upload is stored.
pub file_path-ne-dir_of : (path name : Bytes) → file_path path ≢ dir_of name ++ name
unfolding file_path dir_of
file_path-ne-dir_of path name e = letters-ne (ap (λ s. get_elem? s 10) e)
