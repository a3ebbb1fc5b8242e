-- ===== src/Proxy/Requests.antt =====
-- How proxy.c takes a request apart and writes its own: `parse_uri`, `parse_header`,
-- `parse_request` and the text of `send_to_server`. The lines that `Rio_readlineb` of csapp.c reads
-- enter as a list.
use past_work.Base.{
  ℕ, suc, Bool, ◌&&◌, ◌||◌, Option, none, some, List, [], ◌∷◌, ◌++◌, ◌==◌, ltb, leb, if◌then◌else◌,
  length,
}
use past_work.Base.Text.{CString, codes, str_eq}
use past_work.Base.Search.{after_prefix, cut}

-- The outcome of a step: a value, undefined behaviour (a write behind the end of an array, a read
-- through NULL or of an array that was not filled), or a call of `exit`.
pub data Outcome {ℓ} (A : Type ℓ) : Type ℓ where
  ok : A → Outcome A
  fault : Outcome A
  exits : ℕ → Outcome A

infixl 5 ◌>>=◌
abbrev pub ◌>>=◌ {ℓ κ} : {A : Type ℓ} {B : Type κ} → Outcome A → (A → Outcome B) → Outcome B
ok a >>= f = f a
fault >>= f = fault
exits code >>= f = exits code

-- `strcpy` into an array of a size, which has to hold the NUL too.
abbrev pub copy_into : ℕ → CString → Outcome CString
copy_into size s = if ltb (length s) size then ok s else fault

-- `request_line` and `header_line`
pub record RequestLine : Type 0 where
  pub hostname : CString
  pub port : CString
  pub path : CString

pub record HeaderLine : Type 0 where
  pub headername : CString
  pub header : CString

abbrev pub need {ℓ} : {A : Type ℓ} → Option A → Outcome A
need none = fault
need (some a) = ok a

abbrev pub maxline : ℕ
maxline = 8192

-- `parse_uri`
unfoldable pub parse_uri : CString → Outcome RequestLine
parse_uri uri = elim (after_prefix (codes "http://") uri) [
  | none ↦ exits 0
  | some rest ↦ do
    (host, after_host) ← need (cut (codes ":") rest)
    hostname ← copy_into 64 host
    (digits, after_port) ← need (cut (codes "/") after_host)
    port ← copy_into 20 digits
    path ← copy_into maxline (b'/' ∷ after_port)
    ok (record { hostname = hostname; port = port; path = path })
]

-- `parse_header`
unfoldable pub parse_header : CString → Outcome HeaderLine
parse_header buf = elim (cut (codes ": ") buf) [
  | none ↦ exits 0
  | some (name, value) ↦ do
    headername ← copy_into 32 name
    header ← copy_into 64 value
    ok (record { headername = headername; header = header })
]

abbrev pub crlf : CString
crlf = 13 ∷ 10 ∷ []

-- The loop of `parse_request` over the lines behind the one in `buf`, with the number of headers so
-- far; `headers` has 20 entries. At the end of the input `buf` keeps the last header cut off at
-- its colon, which `parse_header` does not accept.
unfoldable pub headers_from : ℕ → CString → List CString → Outcome (List HeaderLine)
headers_from n buf [] =
    if str_eq buf crlf
    then ok []
    else (do h ← parse_header buf; if ltb n 20 then exits 0 else fault)
headers_from n buf (next ∷ lines) =
    let rest : Outcome (List HeaderLine) = (do
      h ← parse_header buf
      hs ← (if ltb n 20 then headers_from (suc n) next lines else fault)
      ok (h ∷ hs)) in
    if str_eq buf crlf then ok [] else rest

-- White space for `sscanf`.
abbrev pub is_space : ℕ → Bool
is_space c = (c == b' ') || leb 9 c && leb c 13

unfoldable pub skip_space : CString → CString
skip_space [] = []
skip_space (c ∷ s) = if is_space c then skip_space s else c ∷ s

-- A token, and what follows it.
unfoldable pub token : CString → CString × CString
token [] = ([], [])
token (c ∷ s) = let (t, rest) = token s in if is_space c then ([], c ∷ s) else (c ∷ t, rest)

-- The second token of the request line; without one `uri` is not filled.
unfoldable pub second_token : CString → Outcome CString
unfolding skip_space token
second_token buf = elim (token (skip_space (token (skip_space buf)).1)).0 [
  | [] ↦ fault
  | c ∷ t ↦ ok (c ∷ t)
]

-- `parse_request`. Without a first line the request stays unfilled; without a second one `buf` is
-- still the request line.
unfoldable pub parse_request : List CString → Outcome (RequestLine × List HeaderLine)
parse_request [] = fault
parse_request (first ∷ lines) = do
  uri ← second_token first
  line ← parse_uri uri
  headers ← elim lines [ [] ↦ headers_from 0 first [] | buf ∷ rest ↦ headers_from 0 buf rest ]
  ok (line, headers)

-- `sprintf(buf_head, "%s: %s", ...)`
abbrev pub print_header : HeaderLine → CString
print_header h = h.headername ++ codes ": " ++ h.header

unfoldable pub print_headers : List HeaderLine → CString
print_headers [] = []
print_headers (h ∷ hs) = print_header h ++ print_headers hs

-- The text that `send_to_server` composes; what it sends is the whole array that holds it.
unfoldable pub server_request : RequestLine → List HeaderLine → Outcome CString
unfolding print_headers
server_request line headers =
    copy_into maxline
      ((codes "GET " ++ line.path ++ codes " HTTP/1.0" ++ crlf) ++ print_headers headers ++ crlf)
