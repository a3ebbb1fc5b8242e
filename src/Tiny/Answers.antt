-- ===== src/Tiny/Answers.antt =====
-- What tiny.c serves, and to which requests.
use past_work.Base.{
  ◌≡◌, ◌<◌, ◌%◌, ◌^◌, ◌⊎◌, length, take, [], true, false, List, ◌∷◌, ◌++◌, if◌then◌else◌,
}
use past_work.Base.Text.{CString, codes, decimal}
use past_work.Tiny.Server.{crlf, File, Host, Target, get_filetype}

abbrev pub ok_line : CString
ok_line = codes "HTTP/1.0 200 OK" ++ crlf

-- The file that a request names may be sent, or run.
abbrev pub Allowed : Target → File → Type 0
Allowed t f = (f.regular ≡ true) × ((if t.is_static then f.readable else f.executable) ≡ true)

abbrev pub server_line : CString
server_line = codes "Server: Tiny Web Server" ++ crlf

-- The answer with a file: two more lines that tell its size, as an `int`, and its type, and so many
-- of its bytes.
pub record Page (filename content : CString) (rest : List CString) : Type 0 where
  pub not_empty : 0 < length content % 2 ^ 32
  pub not_negative : length content % 2 ^ 32 < 2 ^ 31
  pub texts :
      rest
      ≡ server_line
        ∷ (codes "Content-length: " ++ decimal (length content % 2 ^ 32) ++ crlf)
        ∷ (codes "Content-type: " ++ get_filetype filename ++ crlf ++ crlf)
        ∷ take (length content % 2 ^ 32) content
        ∷ []

-- What stands behind the status line: a file, or what the program says to its arguments.
abbrev pub Served : Host → Target → File → List CString → Type 0
Served host t f rest =
    ((t.is_static ≡ true) × Page t.filename f.content rest)
    ⊎ ((t.is_static ≡ false) × (rest ≡ server_line ∷ host.program t.filename t.cgiargs))
