-- ===== src/Zebra/Request.antt =====
-- `accept_request` of ZebraHttpd/httpd.c, up to the fork of a script.
pub mod Same
use telebra.Base.{
  ℕ, Bool, true, false, not, ◌&&◌, ◌||◌, Option, none, some, [], ◌∷◌, ◌++◌, if◌then◌else◌, Bytes,
  codes, Outcome, returned, ◌>>=◌, ◌>>◌, modify,
}
use telebra.Libc.{str_case_eq}
use telebra.Web.State.{Client, Host, H}
use telebra.Web.GetLine.{Got, get_line}
use telebra.Web.Pages.{unimplemented}
use telebra.Web.Cgi.{get, post, ends_in_c}
use telebra.Web.Request.{
  RequestLine, request_line, split_query, path_of, is_dir, is_executable, refuse, close,
}
use telebra.Zebra.{serve_file}
use telebra.Zebra.Cgi.{Spawn, Next, done, relays, execute_cgi}

-- The end of `accept_request` for a path with this mode.
unfoldable pub answer : Host → Spawn → Bytes → Bytes → Bool → ℕ → H Next
answer host spawn path method cgi mode =
    let target = if is_dir mode then path ++ codes "/index.html" else path in
    let runs = if is_executable mode then true else cgi in
    if not runs then (do serve_file host target; returned done) else execute_cgi host spawn method

-- The tests on `path`: `stat` is not called for one that ends in ".c", and `st` is then what the
-- stack held.
unfoldable pub find_path : Host → Spawn → Got → Bytes → Bytes → Bool → H Next
find_path host spawn g path method cgi =
    if ends_in_c path
    then answer host spawn path method cgi host.stack_st_mode
    else elim (host.stat path) [
      | none ↦ (do refuse g; returned done)
      | some mode ↦ answer host spawn path method cgi mode
    ]

-- Whether there is a '?' in the URL.
abbrev pub has_query : Option Bytes → Bool
has_query none = false
has_query (some query) = true

-- `close(client)`, which for a forked script comes behind the relay.
abbrev pub finish : Next → H Next
finish done c = returned done (close c)
finish (relays len) c = returned (relays len) c

unfoldable pub accept_request : Host → Spawn → H Next
accept_request host spawn c =
    let g = get_line c.input host.stack_buf 1024 in
    let r = request_line g.buf in
    let d = record c { input = g.rest } in
    let posted = str_case_eq r.method post in
    let (url, query) = split_query r.url in
    if not (str_case_eq r.method get) && not posted
    then returned done (unimplemented d)
    else if str_case_eq r.method get
    then (find_path host spawn g (path_of url) r.method (if has_query query then true else posted)
          >>= finish)
        d
    else (find_path host spawn g (path_of r.url) r.method posted >>= finish) d
