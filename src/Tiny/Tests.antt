-- ===== src/Tiny/Tests.antt =====
-- Runs of tiny.c on small inputs.
use past_work.Base.{◌≡◌, ◌++◌, ◌∷◌, [], List, refl, some, none, true, false, if◌then◌else◌}
use past_work.Base.Text.{CString, codes, str_eq, decimal_from, decimal}
use past_work.Base.Search.{after_prefix, cut}
use past_work.Tiny.Server.{
  crlf, File, Host, split_query, ends_with_slash, parse_uri, get_filetype, serve_static,
  serve_dynamic, clienterror, same_word, read_requesthdrs, Request, doit,
}
use past_work.Tiny.Refusals.{Refusals, doit-Refusals}

program : Unit {0}
unfolding split_query ends_with_slash parse_uri get_filetype serve_static serve_dynamic clienterror
    same_word read_requesthdrs doit decimal decimal_from after_prefix cut
program = tt

abbrev page : File
page = record { regular = true; readable = true; executable = false; content = codes "hi" }

abbrev host : Host
host = record {
  file = λ name. if str_eq name (codes "./home.html") then some page else none;
  program = λ name args. args ∷ [];
}

abbrev request : Request
request = record {
  method = codes "get";
  uri = codes "/";
  headers = (codes "Host: a" ++ crlf) ∷ crlf ∷ [];
}

abbrev rest : List CString
rest =
    (codes "Server: Tiny Web Server" ++ crlf)
    ∷ (codes "Content-length: 2" ++ crlf)
    ∷ (codes "Content-type: text/html" ++ crlf ++ crlf)
    ∷ codes "hi"
    ∷ []

query_split :
    parse_uri (codes "/cgi-bin/adder?1&2")
    ≡ record { is_static = false; filename = codes "./cgi-bin/adder"; cgiargs = codes "1&2" }
unfolding program
query_split = refl

abbrev missing : Request
missing = record request { uri = codes "/nothing.gif" }

abbrev refusal : List CString
refusal =
    (codes "HTTP/1.0 404 Not found" ++ crlf)
    ∷ (codes "Content-type: text/html" ++ crlf ++ crlf)
    ∷ codes "<html><title>Tiny Error</title>"
    ∷ (codes "<body bgcolor=ffffff>" ++ crlf)
    ∷ (codes "404: Not found" ++ crlf)
    ∷ (codes "<p>Tiny couldn't find this file: ./nothing.gif" ++ crlf)
    ∷ (codes "<hr><em>The Tiny Web server</em>" ++ crlf)
    ∷ []

missing_refused : doit host missing ≡ some refusal
unfolding program
missing_refused = refl

doit-Refusals_example : Refusals host missing refusal
doit-Refusals_example = doit-Refusals host missing refusal missing_refused

-- An empty file ends the server.
abbrev empty_host : Host
empty_host = record host { file = λ name. some (record page { content = [] }) }

empty_file : doit empty_host request ≡ none
unfolding program
empty_file = refl
