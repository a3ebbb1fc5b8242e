-- ===== src/Tiny/Server.antt =====
-- A request of tiny.c and its answer: `doit`, `parse_uri`, `get_filetype`, `serve_static`,
-- `serve_dynamic` and `clienterror`. The lines of the request, the file system and the programs that
-- it runs are arguments; what is written to the client is a list of texts.
use past_work.Base.{
  ℕ, ◌+◌, ◌%◌, ◌^◌, Bool, true, false, not, ◌&&◌, ◌||◌, Option, none, some, List, [], ◌∷◌, ◌++◌,
  ◌==◌, ltb, leb, take, if◌then◌else◌, length,
}
use past_work.Base.Text.{CString, codes, str_eq, decimal}
use past_work.Base.Search.{contains}

abbrev pub crlf : CString
crlf = 13 ∷ 10 ∷ []

-- What `stat` tells of a file, and what the file holds.
pub record File : Type 0 where
  pub regular : Bool
  pub readable : Bool
  pub executable : Bool
  pub content : CString

-- The files by name, and the answer of a program to its argument text.
pub record Host : Type 0 where
  pub file : CString → Option File
  pub program : (filename cgiargs : CString) → List CString

-- `parse_uri`: whether the content is static, the file name and the arguments of the program.
pub record Target : Type 0 where
  pub is_static : Bool
  pub filename : CString
  pub cgiargs : CString

-- `index(uri, '?')`
unfoldable pub split_query : CString → CString × CString
split_query [] = ([], [])
split_query (c ∷ s) =
    let (path, args) = split_query s in if c == b'?' then ([], s) else (c ∷ path, args)

unfoldable pub ends_with_slash : CString → Bool
ends_with_slash [] = false
ends_with_slash (c ∷ []) = c == b'/'
ends_with_slash (c ∷ d ∷ s) = ends_with_slash (d ∷ s)

unfoldable pub parse_uri : CString → Target
unfolding split_query ends_with_slash
parse_uri uri =
    if contains (codes "cgi-bin") uri
    then (let (path, args) = split_query uri in
        record { is_static = false; filename = b'.' ∷ path; cgiargs = args })
    else record {
      is_static = true;
      filename = if ends_with_slash uri then (b'.' ∷ uri) ++ codes "home.html" else b'.' ∷ uri;
      cgiargs = [];
    }

-- `get_filetype`
unfoldable pub get_filetype : CString → CString
get_filetype filename =
    if contains (codes ".html") filename
    then codes "text/html"
    else if contains (codes ".gif") filename
    then codes "image/gif"
    else if contains (codes ".png") filename
    then codes "image/png"
    else if contains (codes ".jpg") filename
    then codes "image/jpeg"
    else codes "text/plain"

abbrev pub maxline : ℕ
maxline = 8192

-- `serve_static`. The size is an `int`: of the `st_size` bytes that `stat` tells, its last 32 bits.
-- `none` is the end of the server, once the four lines are written: `Mmap` exits for an empty file
-- and for a size below 0, which as a `size_t` is more than there is room for.
unfoldable pub serve_static : CString → CString → Option (List CString)
unfolding get_filetype
serve_static filename content =
    let filesize = length content % 2 ^ 32 in
    if ltb 0 filesize && ltb filesize (2 ^ 31)
    then some (
        (codes "HTTP/1.0 200 OK" ++ crlf)
        ∷ (codes "Server: Tiny Web Server" ++ crlf)
        ∷ (codes "Content-length: " ++ decimal filesize ++ crlf)
        ∷ (codes "Content-type: " ++ get_filetype filename ++ crlf ++ crlf)
        ∷ take filesize content
        ∷ [])
    else none

-- `serve_dynamic`: the program writes to the client itself.
unfoldable pub serve_dynamic : Host → CString → CString → List CString
serve_dynamic host filename cgiargs =
    (codes "HTTP/1.0 200 OK" ++ crlf)
    ∷ (codes "Server: Tiny Web Server" ++ crlf)
    ∷ host.program filename cgiargs

-- `clienterror`. In the source the quotes around `ffffff` end and begin a literal. `none` is a write
-- behind the end of `buf`; the texts other than the cause are the short ones of `doit`.
unfoldable pub clienterror : (cause errnum shortmsg longmsg : CString) → Option (List CString)
clienterror cause errnum shortmsg longmsg =
    let reason = codes "<p>" ++ longmsg ++ codes ": " ++ cause ++ crlf in
    if ltb (length reason) maxline
    then some (
        (codes "HTTP/1.0 " ++ errnum ++ codes " " ++ shortmsg ++ crlf)
        ∷ (codes "Content-type: text/html" ++ crlf ++ crlf)
        ∷ codes "<html><title>Tiny Error</title>"
        ∷ (codes "<body bgcolor=ffffff>" ++ crlf)
        ∷ (errnum ++ codes ": " ++ shortmsg ++ crlf)
        ∷ reason
        ∷ (codes "<hr><em>The Tiny Web server</em>" ++ crlf)
        ∷ [])
    else none

-- A letter in lower case, and `strcasecmp(s, t) == 0`.
abbrev pub lower : ℕ → ℕ
lower c = if leb b'A' c && leb c b'Z' then c + 32 else c

unfoldable pub same_word : CString → CString → Bool
same_word [] [] = true
same_word [] (d ∷ t) = false
same_word (c ∷ s) [] = false
same_word (c ∷ s) (d ∷ t) = (lower c == lower d) && same_word s t

-- `read_requesthdrs`: whether an empty line ends the headers. At the end of the input the buffer
-- stays as it is, and the loop does not end.
unfoldable pub read_requesthdrs : List CString → Bool
read_requesthdrs [] = false
read_requesthdrs (l ∷ ls) = let rest = read_requesthdrs ls in if str_eq l crlf then true else rest

-- The request line: the texts that `sscanf` puts into `method` and `uri`.
pub record Request : Type 0 where
  pub method : CString
  pub uri : CString
  pub headers : List CString

-- `doit`, once the request line is read: what is written to the client, or `none` when the headers
-- have no end, the file name or a text does not fit its array, or the server ends.
unfoldable pub doit : Host → Request → Option (List CString)
doit host r =
    let t = parse_uri r.uri in
    if not (same_word r.method (codes "GET"))
    then clienterror r.method (codes "501") (codes "Not Implemented")
        (codes "Tiny does not implement this method")
    else if not (read_requesthdrs r.headers)
    then none
    else if not (ltb (length t.filename) maxline)
    then none
    else elim (host.file t.filename) [
      | none ↦
          clienterror t.filename (codes "404") (codes "Not found")
            (codes "Tiny couldn't find this file")
      | some f ↦
          if t.is_static
          then (if not f.regular || not f.readable
              then clienterror t.filename (codes "403") (codes "Forbidden")
                  (codes "Tiny couldn't read the file")
              else serve_static t.filename f.content)
          else (if not f.regular || not f.executable
              then clienterror t.filename (codes "403") (codes "Forbidden")
                  (codes "Tiny couldn't run the CGI program")
              else some (serve_dynamic host t.filename t.cgiargs))
    ]
