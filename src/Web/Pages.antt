-- ===== src/Web/Pages.antt =====
-- MotorDriver/webpages.c: the fixed responses.
pub mod Sizes
use telebra.Base.{ℕ, ◌+◌, List, [], ◌∷◌, ◌++◌, Bytes, length, drop, codes}
use telebra.Web.State.{Client, send}

abbrev pub server_string : Bytes
server_string = codes "Server: jdbhttpd/0.1.0\r\n"

-- `sprintf(buf, s)`: the text and its NUL, over what stood in the buffer.
abbrev pub sprintf : Bytes → Bytes → Bytes
sprintf s buf = s ++ 0 ∷ drop (length s + 1) buf

-- `sprintf` of each text in turn, each time sending the text: `strlen(buf)` bytes.
unfoldable pub send_texts : List Bytes → Client → Client
send_texts [] c = c
send_texts (s ∷ ss) c = send_texts ss (send s c)

-- The same, each time sending the whole buffer: `sizeof(buf)` bytes.
unfoldable pub send_buffers : List Bytes → Bytes → Client → Client
send_buffers [] buf c = c
send_buffers (s ∷ ss) buf c = send_buffers ss (sprintf s buf) (send (sprintf s buf) c)

abbrev pub bad_request_texts : List Bytes
bad_request_texts =
    codes "HTTP/1.0 400 BAD REQUEST\r\n"
    ∷ codes "Content-type: text/html\r\n"
    ∷ codes "\r\n"
    ∷ codes "<P>Your browser sent a bad request, "
    ∷ codes "such as a POST without a Content-Length.\r\n"
    ∷ []

-- `bad_request`; `buf` is what the uninitialised buffer of 1024 bytes holds.
unfoldable pub bad_request : Bytes → Client → Client
bad_request buf = send_buffers bad_request_texts buf

abbrev pub cannot_execute_texts : List Bytes
cannot_execute_texts =
    codes "HTTP/1.0 500 Internal Server Error\r\n"
    ∷ codes "Content-type: text/html\r\n"
    ∷ codes "\r\n"
    ∷ codes "<P>Error prohibited CGI execution.\r\n"
    ∷ []

unfoldable pub cannot_execute : Client → Client
cannot_execute = send_texts cannot_execute_texts

abbrev pub headers_texts : List Bytes
headers_texts =
    codes "HTTP/1.0 200 OK\r\n"
    ∷ server_string
    ∷ codes "Content-Type: text/html\r\n"
    ∷ codes "\r\n"
    ∷ []

unfoldable pub headers : Client → Client
headers = send_texts headers_texts

abbrev pub not_found_texts : List Bytes
not_found_texts =
    codes "HTTP/1.0 404 NOT FOUND\r\n"
    ∷ server_string
    ∷ codes "Content-Type: text/html\r\n"
    ∷ codes "\r\n"
    ∷ codes "<HTML><TITLE>Not Found</TITLE>\r\n"
    ∷ codes "<BODY><P>The server could not fulfill\r\n"
    ∷ codes "your request because the resource specified\r\n"
    ∷ codes "is unavailable or nonexistent.\r\n"
    ∷ codes "</BODY></HTML>\r\n"
    ∷ []

unfoldable pub not_found : Client → Client
not_found = send_texts not_found_texts

abbrev pub unimplemented_texts : List Bytes
unimplemented_texts =
    codes "HTTP/1.0 501 Method Not Implemented\r\n"
    ∷ server_string
    ∷ codes "Content-Type: text/html\r\n"
    ∷ codes "\r\n"
    ∷ codes "<HTML><HEAD><TITLE>Method Not Implemented\r\n"
    ∷ codes "</TITLE></HEAD>\r\n"
    ∷ codes "<BODY><P>HTTP request method not supported.\r\n"
    ∷ codes "</BODY></HTML>\r\n"
    ∷ []

unfoldable pub unimplemented : Client → Client
unimplemented = send_texts unimplemented_texts
