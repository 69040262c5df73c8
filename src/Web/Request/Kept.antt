-- ===== src/Web/Request/Kept.antt =====
-- What `processMotorControl` keeps of the driver's state, every request keeps.
pub mod Files
pub mod Cgi
pub mod Orders
use telebra.Base.{
  ℕ, zero, suc, ◌+◌, ◌≡◌, refl, inl, inr, ap, ◌∙◌, true, false, not, ◌&&◌, ◌||◌, Bool, Option-cases,
  Option, none, some, List, [], ◌∷◌, ◌++◌, ltb, if◌then◌else◌, Bytes, length, set, replicate, codes,
  ℤ, pos, negsuc, minus_one, rounds, Outcome, returned, blocked, running, fault, exited, ◌>>=◌,
  ◌>>◌, modify, Ensures, Ensures-if, Any, Keeps, Keeps-if, Keeps-bind, Keeps-then, Keeps-returned,
  Keeps-modify,
}
use telebra.Libc.{str_case_eq}
use telebra.Qik.State.{Qik}
use telebra.Qik.Motor.{process_motor_control}
use telebra.Web.State.{Client, Host, H, send, on_qik}
use telebra.Web.GetLine.{Got, get_line, discard_headers}
use telebra.Web.Pages.{
  send_texts, send_buffers, headers, headers_texts, not_found, not_found_texts, unimplemented,
  unimplemented_texts, bad_request, bad_request_texts,
}
use telebra.Web.File.{
  Chunk, fgets, until_nul, send_chunks, send_file, skip_headers, fresh_buf, serve_opened,
  serve_file,
}
use telebra.Web.Cgi.{
  get, post, ends_in_c, post_headers, read_content, post_content, run_c, run_script, respond,
  execute_cgi,
}
use telebra.Web.Request.{
  RequestLine, request_line, split_query, path_of, is_dir, is_executable, answer, refuse, find_path,
  close, route, accept_request,
}
use telebra.Web.Request.Kept.Files.{
  Kept, not_found-Kept, unimplemented-Kept, bad_request-Kept, skip_headers-Keeps, serve_file-Keeps,
}
use telebra.Web.Request.Kept.Cgi.{execute_cgi-Keeps}

module _ (P : Qik → Type 0)
    (motor : (content : Bytes) → Keeps P Any (process_motor_control content)) where
  answer-Keeps :
      (host : Host) (path method : Bytes) (query : Option Bytes) (cgi : Bool) (mode : ℕ)
      → Keeps (Kept P) Any (answer host path method query cgi mode)
  unfolding answer
  answer-Keeps host path method query cgi mode =
      let target = if is_dir mode then path ++ codes "/index.html" else path in
      Keeps-if (cgi || is_executable mode) _ _ (execute_cgi-Keeps P motor host target method query)
        (serve_file-Keeps P host target)

  refuse-Keeps : (g : Got) → Keeps (Kept P) Any (refuse g)
  unfolding refuse
  refuse-Keeps g = record {
    at = λ c p. elim (Option-cases (discard_headers (length g.rest + 2) g)) [
      | inl e ↦ rw (e, refuse) p
      | inr (h, e) ↦ rw (e, refuse) (tt, not_found-Kept P (record c { input = h.rest }) p)
    ];
  }

  find_path-Keeps :
      (host : Host) (g : Got) (path method : Bytes) (query : Option Bytes) (cgi : Bool)
      → Keeps (Kept P) Any (find_path host g path method query cgi)
  unfolding find_path
  find_path-Keeps host g path method query cgi =
      Keeps-if (ends_in_c path) _ _ (answer-Keeps host path method query cgi host.stack_st_mode)
        (elim (Option-cases (host.stat path)) [
          | inl e ↦ rw e (refuse-Keeps g)
          | inr (mode, e) ↦ rw e (answer-Keeps host path method query cgi mode)
        ])

  route-Keeps : (host : Host) (g : Got) (r : RequestLine) → Keeps (Kept P) Any (route host g r)
  unfolding route
  route-Keeps host g r =
      let posted = find_path-Keeps host g (path_of r.url) r.method none true in
      let front = path_of (split_query r.url).0 in
      Keeps-then Any _ _
        (Keeps-if (str_case_eq r.method post) _ _ posted
          (elim (Option-cases (split_query r.url).1) [
            | inl e ↦ rw e (find_path-Keeps host g front r.method (some []) false)
            | inr (q, e) ↦ rw e (find_path-Keeps host g front r.method (some q) true)
          ]))
        (Keeps-modify close (λ c p. p))

  -- What `processMotorControl` keeps of the state of the driver, for any content, a request keeps,
  -- whatever the client sends and however the handler ends: no other part of a handler reaches the
  -- driver.
  pub accept_request-Keeps : (host : Host) → Keeps (Kept P) Any (accept_request host)
  unfolding accept_request
  accept_request-Keeps host = record {
    at = λ c p.
        let g = get_line c.input host.stack_buf 1024 in
        let r = request_line g.buf in
        Ensures-if Any (Kept P) (not (str_case_eq r.method get) && not (str_case_eq r.method post))
          _ _ (tt, unimplemented-Kept P (record c { input = g.rest }) p)
          ((route-Keeps host g r).at (record c { input = g.rest }) p);
  }
