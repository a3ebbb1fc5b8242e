-- ===== src/Proxy/Tests.antt =====
-- Runs of proxy.c on small inputs.
use past_work.Base.{
  ℕ, zero, suc, ap, ◌≡◌, ◌≢◌, ◌⊎◌, ◌≤◌, ◌<◌, ◌++◌, ◌∷◌, [], List, refl, some, none, arith, length,
  All, replicate,
}
use past_work.Base.Text.{CString, codes}
use past_work.Base.Search.{after_prefix, cut}
use past_work.Proxy.Cache.{
  CacheLine, Cache, initialize_cache, num_cache_line, search_from, reader, lru_from, lru, line_at,
  strcpy, writer,
}
use past_work.Proxy.Requests.{
  ok, RequestLine, HeaderLine, parse_uri, parse_header, crlf, headers_from, skip_space, token,
  second_token, parse_request, print_headers, server_request,
}
use past_work.Proxy.Serve.{
  max_object_size, before_nul, relay_from, relay, from_cache, from_server, doit,
}
use past_work.Proxy.Forward.{request_line, text, parse_uri-parts, server_request-parse_request}
use past_work.Proxy.Replace.{Sound, writer-Sound, reader-writer_ne}
use past_work.Proxy.Again.{Arrays, doit-from_cache}

program : Unit {0}
unfolding search_from reader lru_from lru line_at strcpy writer parse_uri parse_header headers_from
    skip_space token second_token parse_request print_headers server_request before_nul relay_from
    relay doit after_prefix cut
program = tt

-- The bytes of a payload before it is used.
unfoldable blank : CString
blank = replicate 102400 0

length-replicate : (n x : ℕ) → length (replicate n x) ≡ n
length-replicate zero x = refl
length-replicate (suc n) x = ap suc (length-replicate n x)

blank-length : length blank ≡ max_object_size
unfolding blank
blank-length = length-replicate 102400 0

fresh-Sound : Sound (initialize_cache (λ i. blank))
fresh-Sound = record { size = refl; used = omega arith }

abbrev asked : CString
asked = codes "GET http://a.com:80/x HTTP/1.0" ++ crlf

abbrev host_line : CString
host_line = codes "Host: a.com" ++ crlf

abbrev request : List CString
request = asked ∷ host_line ∷ crlf ∷ []

abbrev line : RequestLine
line = record { hostname = codes "a.com"; port = codes "80"; path = codes "/x" }

abbrev headers : List HeaderLine
headers = record { headername = codes "Host"; header = codes "a.com" ++ crlf } ∷ []

request_parsed : parse_request request ≡ ok (line, headers)
unfolding program
request_parsed = refl

abbrev server : CString → CString → CString → List CString
server host port question = codes "hello" ∷ []

abbrev fresh_cache : Cache
fresh_cache = initialize_cache (λ i. blank)

abbrev after_request : Cache
after_request = writer (codes "a.com/x") (codes "hello") none fresh_cache

request_answered : doit server request fresh_cache ≡ ok (from_server (codes "hello"), after_request)
unfolding program
request_answered = refl

fresh-Arrays : Arrays fresh_cache.lines
fresh-Arrays = (
  blank-length,
  (
    blank-length,
    (
      blank-length,
      (
        blank-length,
        (
          blank-length,
          (blank-length, (blank-length, (blank-length, (blank-length, (blank-length, tt))))),
        ),
      ),
    ),
  ),
)

doit-from_cache_example :
    (c'' : Cache) × (stale : CString) × (doit (λ h p q. []) request after_request
      ≡ ok (from_cache (codes "hello" ++ 0 ∷ stale), c''))
    × (length (codes "hello" ++ 0 ∷ stale) ≡ max_object_size)
doit-from_cache_example =
    doit-from_cache server request (λ h p q. []) fresh_cache after_request (codes "hello")
      fresh-Sound fresh-Arrays request_answered (omega arith)
      (refl, (refl, (refl, (refl, (refl, tt)))))

writer-Sound_example : Sound (writer (codes "b") (codes "text") none fresh_cache)
writer-Sound_example = writer-Sound (codes "b") (codes "text") fresh_cache fresh-Sound

-- All lines are in use; the first is the oldest.
abbrev full : Cache
full = record {
  lines =
      record { name = codes "old"; payload = codes "one"; timestamp = 3 }
      ∷ replicate 9 (record { name = codes "new"; payload = codes "two"; timestamp = 7 });
  usedcnt = 10;
  gtime = 12;
}

abbrev old_line : CacheLine
old_line = record { name = codes "old"; payload = codes "one"; timestamp = 3 }

full-Sound : Sound full
full-Sound = record { size = refl; used = omega arith }

old_found : reader (codes "old") full ≡ some (0, old_line)
unfolding program
old_found = refl

reader-writer_ne_example :
    (reader (codes "old") (writer (codes "b") (codes "text") none full) ≡ some (0, old_line))
    ⊎ ((full.usedcnt ≡ num_cache_line)
        × (0 ≡ lru full.lines)
        × All (λ x. old_line.timestamp ≤ x.timestamp) full.lines)
reader-writer_ne_example =
    reader-writer_ne (codes "b") (codes "text") full full-Sound (codes "old") 0 old_line refl
      old_found

-- The oldest object is given up.
old_gone : reader (codes "old") (writer (codes "b") (codes "text") none full) ≡ none
unfolding program
old_gone = refl

uri_parsed : parse_uri (codes "http://a.com:80/x") ≡ ok line
unfolding program
uri_parsed = refl

parse_uri-parts_example :
    (codes "http://a.com:80/x"
      ≡ codes "http://" ++ (line.hostname ++ codes ":" ++ (line.port ++ line.path)))
    × (length line.hostname < 64)
    × (length line.port < 20)
    × ((p : CString) × (line.path ≡ b'/' ∷ p))
parse_uri-parts_example = parse_uri-parts (codes "http://a.com:80/x") line uri_parsed

abbrev composed_text : CString
composed_text = codes "GET /x HTTP/1.0" ++ crlf ++ host_line ++ crlf

text_composed : server_request line headers ≡ ok composed_text
unfolding program
text_composed = refl

server_request-parse_request_example :
    (header_lines : List CString) × (rest : List CString) × (host_line ∷ crlf ∷ []
      ≡ header_lines ++ crlf ∷ rest)
    × All (λ l. l ≢ crlf) header_lines
    × (composed_text ≡ request_line line ++ (text header_lines ++ crlf))
    × (length header_lines ≡ length headers)
    × (length headers ≤ 20)
    × (length composed_text < 8192)
server_request-parse_request_example =
    server_request-parse_request asked host_line (crlf ∷ []) line headers composed_text
      request_parsed text_composed
