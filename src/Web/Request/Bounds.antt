-- ===== src/Web/Request/Bounds.antt =====
-- The fixed buffers of `accept_request`.
use telebra.Base.{
  ℕ, zero, suc, ◌+◌, ◌≤◌, ◌<◌, [], ◌∷◌, ◌++◌, arith, Bytes, length, length-append, codes,
}
use telebra.Web.File.{until_nul}
use telebra.Web.Request.{request_line, copy_word, skip_space, split_query, path_of}

length-copy_word : (n : ℕ) (buf : Bytes) → length (copy_word n buf).0 ≤ n
unfolding copy_word
length-copy_word zero buf = omega arith
length-copy_word (suc n) [] = omega arith
length-copy_word (suc n) (c ∷ buf) = ground (arith, length-copy_word n buf)

length-until_nul : (buf : Bytes) → length (until_nul buf) ≤ length buf
unfolding until_nul
length-until_nul [] = omega arith
length-until_nul (c ∷ buf) = ground (arith, length-until_nul buf)

length-split_query : (url : Bytes) → length (split_query url).0 ≤ length url
unfolding split_query
length-split_query [] = omega arith
length-split_query (c ∷ url) = ground (arith, length-split_query url)

length-request_line :
    (buf : Bytes) → let r = request_line buf in (length r.method < 255) × (length r.url < 255)
unfolding request_line
length-request_line buf =
    let m = copy_word 254 buf in
    let u = copy_word 254 (skip_space m.1) in
    (
      omega (arith, length-until_nul m.0, length-copy_word 254 buf),
      omega (arith, length-until_nul u.0, length-copy_word 254 (skip_space m.1)),
    )

length-path_of : (url : Bytes) → length (path_of url) ≤ length url + 16
unfolding path_of
length-path_of url =
    let long = length-append (codes "htdocs" ++ url) (codes "index.html") in ground (arith, long)

-- Whatever the first line is: the method and the URL fit their buffers of 255 bytes with a NUL, and
-- the path made of the URL, whole or without its query, fits `path` with "index.html",
-- "/index.html" and a NUL behind it.
pub request_line_bounds :
    (buf : Bytes)
    → let r = request_line buf in
      (length r.method < 255)
      × (length r.url < 255)
      × (length (path_of r.url ++ codes "/index.html") < 512)
      × (length (path_of (split_query r.url).0 ++ codes "/index.html") < 512)
request_line_bounds buf =
    let r = request_line buf in
    let front = (split_query r.url).0 in
    let (m, u) = length-request_line buf in
    (
      m,
      u,
      omega (arith, u, length-path_of r.url, length-append (path_of r.url) (codes "/index.html")),
      omega (
        arith,
        u,
        length-path_of front,
        length-split_query r.url,
        length-append (path_of front) (codes "/index.html"),
      ),
    )
