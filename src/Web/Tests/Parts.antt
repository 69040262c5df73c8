-- ===== src/Web/Tests/Parts.antt =====
-- The theorems on the parts of a request at concrete inputs.
use telebra.Base.{
  drop, ◌⊎◌, ◌<◌, ◌≤◌, length, ◌+◌, ◌≤◌, ◌<◌, ◌≡◌, ◌⊎◌, refl, true, some, [], ◌∷◌, ◌++◌, arith,
  Bytes, length, drop, replicate, codes, pos, minus_one, returned, fault,
}
use telebra.Libc.{is_space, str_case_eq, atoi, signed_value, skip_spaces, digits_value}
use telebra.Web.State.{Client}
use telebra.Web.GetLine.{Got, get_line}
use telebra.Web.GetLine.Lines.{unix_lines, IsLine, ends_line, get_line-reads}
use telebra.Web.GetLine.Headers.{lf, crlf}
use telebra.Web.File.{send_file}
use telebra.Web.File.Content.{Sends, send_file-Sends}
use telebra.Web.Cgi.{post_headers, read_content}
use telebra.Web.Cgi.Content.{read_content_overflows}
use telebra.Web.Cgi.Declared.{post_headers-announced}
use telebra.Web.Request.{request_line, path_of, split_query}
use telebra.Web.Request.Bounds.{request_line_bounds}
use telebra.Web.Tests.{not_zero, header, client, length_header, get_hi}

get_line-reads_example :
    let g = get_line (codes "a\r\nb") (replicate 8 7) 8 in
    (line : Bytes) × (g.buf ≡ line ++ 0 ∷ drop (length line + 1) (replicate 8 7))
    × (g.numchars ≡ length line)
    × (length line + 1 ≤ 8)
    × (length g.buf ≡ 8)
    × (unix_lines (codes "a\r\nb") ≡ line ++ unix_lines g.rest)
    × IsLine line
    × ((length line + 1 ≡ 8) ⊎ (ends_line line ≡ true) ⊎ (g.rest ≡ []))
get_line-reads_example =
    get_line-reads (codes "a\r\nb") (replicate 8 7) 8 (omega arith) (omega arith)

send_file-Sends_example :
    (d : Client) × (send_file (codes "a\nb") (client []) ≡ returned tt d)
    × Sends (codes "a\nb") (client []) d
send_file-Sends_example = send_file-Sends (codes "a\nb") (client []) (not_zero (codes "a\nb") refl)

-- More bytes than `postContent` takes.
abbrev sevens : Bytes
sevens = replicate 1600 7

read_content_overflows_example :
    ((1024 < 1500)
      × (1024 < length sevens)
      × (read_content 1500 0 (replicate 1024 0) (client sevens)
          ≡ fault (client (drop 1025 sevens))))
    ⊎ (((1500 ≤ 1024) ⊎ (length sevens ≤ 1024))
        × (kept : Bytes) × (read_content 1500 0 (replicate 1024 0) (client sevens)
            ≡ returned kept (client (drop 1500 sevens))))
read_content_overflows_example = read_content_overflows 1500 (replicate 1024 0) (client sevens)

post_headers-announced_example :
    (h : Got) × (post_headers 5 minus_one (record {
      numchars = 19;
      buf = length_header ++ b'\n' ∷ 0 ∷ [];
      rest = codes "\nLEFT_START";
    })
      ≡ some (pos 10, h))
    × (h.rest ≡ codes "LEFT_START")
unfolding atoi signed_value skip_spaces is_space digits_value str_case_eq
post_headers-announced_example =
    post_headers-announced 5 minus_one length_header [] crlf [] lf (codes "LEFT_START")
      (header b'C' (codes "ontent-Length: 10") refl refl (omega arith), tt, tt) tt (omega arith)
      (record { spaced = refl; small = refl }, tt) refl

request_line_bounds_example :
    let r = request_line get_hi in
    (length r.method < 255)
    × (length r.url < 255)
    × (length (path_of r.url ++ codes "/index.html") < 512)
    × (length (path_of (split_query r.url).0 ++ codes "/index.html") < 512)
request_line_bounds_example = request_line_bounds get_hi
