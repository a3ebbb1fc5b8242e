-- ===== src/Proxy/Serve.antt =====
-- `doit` of proxy.c: a request is answered from the cache or from its server.
use past_work.Base.{ℕ, ◌+◌, none, some, List, [], ◌∷◌, ◌++◌, ◌==◌, ltb, if◌then◌else◌, length}
use past_work.Base.Text.{CString}
use past_work.Proxy.Cache.{Cache, reader, writer}
use past_work.Proxy.Requests.{
  Outcome, ok, fault, ◌>>=◌, copy_into, maxline, parse_request, server_request,
}

abbrev pub max_object_size : ℕ
max_object_size = 102400

-- What a C string keeps of a text: the bytes before the first NUL.
unfoldable pub before_nul : CString → CString
before_nul [] = []
before_nul (c ∷ s) = if c == 0 then [] else c ∷ before_nul s

-- The loop of `doit` that copies the answer of the server to the client and, line by line, into
-- `object_buf`: what the client gets and what the array holds, from `total_size` bytes so far.
unfoldable pub relay_from : ℕ → List CString → Outcome CString
relay_from total [] = ok []
relay_from total (line ∷ lines) =
    let rest : Outcome CString = (do
      text ← relay_from (total + length line) lines
      ok (line ++ text)) in
    if ltb (total + length (before_nul line)) max_object_size then rest else fault

-- Of an answer with no line the array would hold nothing that `strcpy` can copy.
unfoldable pub relay : List CString → Outcome CString
relay [] = fault
relay (line ∷ lines) = relay_from 0 (line ∷ lines)

-- What goes to the client, and where it comes from: the whole array of a payload, or the answer of
-- the server.
pub data Answer : Type 0 where
  from_cache : CString → Answer
  from_server : CString → Answer

-- `doit`, for the lines of the request; the servers are a function from the host, the port and the
-- text of the request to the lines of the answer. What stands behind the text in the array of
-- `send_to_server` is sent too, and is for that function to choose.
unfoldable pub doit :
    (server : CString → CString → CString → List CString)
    → List CString
    → Cache
    → Outcome (Answer × Cache)
doit server request c = do
  (line, headers) ← parse_request request
  uri ← copy_into maxline (line.hostname ++ line.path)
  elim (reader uri c) [
    | some (i, l) ↦ ok (from_cache l.payload, writer uri [] (some i) c)
    | none ↦ (do
      text ← server_request line headers
      answer ← relay (server line.hostname line.port text)
      ok (
        from_server answer,
        if ltb (length answer) max_object_size then writer uri (before_nul answer) none c else c,
      ))
  ]
