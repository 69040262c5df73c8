-- ===== src/Web/Request.antt =====
-- `accept_request` of MotorDriver/httpd.c.
pub mod Drive
pub mod Words
pub mod Ending
pub mod Bounds
pub mod Get
pub mod Answers
pub mod Other
pub mod Kept
use Prim.Native.Nat.{bit_and}
use telebra.Base.{
  ℕ, zero, suc, ◌+◌, Bool, true, false, not, ◌&&◌, ◌||◌, Option, none, some, [], ◌∷◌, ◌++◌, ltb,
  ◌==◌, if◌then◌else◌, Bytes, length, codes, Outcome, returned, running, ◌>>=◌, ◌>>◌, modify,
}
use telebra.Libc.{c_str, str_case_eq, is_space}
use telebra.Web.State.{Client, Host, H}
use telebra.Web.GetLine.{Got, get_line, discard_headers}
use telebra.Web.File.{until_nul, serve_file}
use telebra.Web.Pages.{not_found, unimplemented}
use telebra.Web.Cgi.{get, post, ends_in_c, execute_cgi}

-- The loops that copy a word out of the buffer, `n` bytes at most: the word, and what is behind it.
unfoldable pub copy_word : ℕ → Bytes → Bytes × Bytes
unfolding is_space
copy_word zero buf = ([], buf)
copy_word (suc n) [] = ([], [])
copy_word (suc n) (c ∷ buf) =
    let (word, left) = copy_word n buf in if is_space c then ([], c ∷ buf) else (c ∷ word, left)

-- The loop that skips white space, up to the end of the buffer.
unfoldable pub skip_space : Bytes → Bytes
unfolding is_space
skip_space [] = []
skip_space (c ∷ buf) = if is_space c then skip_space buf else c ∷ buf

-- The loop over `query_string`: the text before the first '?', and the text behind it if there is
-- one.
unfoldable pub split_query : Bytes → Bytes × Option Bytes
split_query [] = ([], none)
split_query (c ∷ url) =
    let (front, query) = split_query url in if c == b'?' then ([], some url) else (c ∷ front, query)

-- The first line of a request, taken apart: both words end at a NUL if they hold one.
pub record RequestLine : Type 0 where
  pub method : Bytes
  pub url : Bytes

unfoldable pub request_line : Bytes → RequestLine
unfolding copy_word skip_space until_nul
request_line buf =
    let (method, behind) = copy_word 254 buf in
    let (url, more) = copy_word 254 (skip_space behind) in
    record { method = until_nul method; url = until_nul url }

abbrev pub ends_in_slash : Bytes → Bool
ends_in_slash [] = false
ends_in_slash (c ∷ []) = c == b'/'
ends_in_slash (c ∷ d ∷ path) = ends_in_slash (d ∷ path)

-- `sprintf(path, "htdocs%s", url)`, and "index.html" behind a slash.
unfoldable pub path_of : Bytes → Bytes
path_of url =
    let path = codes "htdocs" ++ url in
    if ends_in_slash path then path ++ codes "index.html" else path

-- `(st.st_mode & S_IFMT) == S_IFDIR`
abbrev pub is_dir : ℕ → Bool
is_dir mode = bit_and mode 0xf000 == 0x4000

-- `st.st_mode & S_IXUSR`, `S_IXGRP` or `S_IXOTH`
abbrev pub is_executable : ℕ → Bool
is_executable mode =
    not (bit_and mode 0x40 == 0) || not (bit_and mode 0x8 == 0) || not (bit_and mode 0x1 == 0)

-- The end of `accept_request` for a path with this mode.
unfoldable pub answer : Host → Bytes → Bytes → Option Bytes → Bool → ℕ → H (Unit {0})
answer host path method query cgi mode =
    let target = if is_dir mode then path ++ codes "/index.html" else path in
    if cgi || is_executable mode
    then execute_cgi host target method query
    else serve_file host target

-- Read the headers that are left, from this line on, and answer 404.
unfoldable pub refuse : Got → H (Unit {0})
refuse g c = elim (discard_headers (length g.rest + 2) g) [
  | none ↦ running c
  | some h ↦ returned tt (not_found (record c { input = h.rest }))
]

-- The tests on `path`: `stat` is not called for one that ends in ".c", and `st` is then what the
-- stack held.
unfoldable pub find_path : Host → Got → Bytes → Bytes → Option Bytes → Bool → H (Unit {0})
find_path host g path method query cgi =
    if ends_in_c path
    then answer host path method query cgi host.stack_st_mode
    else elim (host.stat path) [
      | none ↦ refuse g
      | some mode ↦ answer host path method query cgi mode
    ]

abbrev pub close : Client → Client
close c = record c { closed = true }

-- Behind the test on the method. For a GET the query is cut off the URL.
unfoldable pub route : Host → Got → RequestLine → H (Unit {0})
route host g r = do
  (if str_case_eq r.method post
      then find_path host g (path_of r.url) r.method none true
      else let (url, query) = split_query r.url in
        elim query [
          | none ↦ find_path host g (path_of url) r.method (some []) false
          | some q ↦ find_path host g (path_of url) r.method (some q) true
        ])
  modify close

-- `accept_request`. The early return for another method does not close the client.
unfoldable pub accept_request : Host → H (Unit {0})
accept_request host c =
    let g = get_line c.input host.stack_buf 1024 in
    let r = request_line g.buf in
    let d = record c { input = g.rest } in
    if not (str_case_eq r.method get) && not (str_case_eq r.method post)
    then returned tt (unimplemented d)
    else route host g r d
