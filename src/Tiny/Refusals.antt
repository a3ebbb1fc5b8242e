-- ===== src/Tiny/Refusals.antt =====
-- Which requests tiny.c refuses, and with which status.
use past_work.Base.{
  ℕ, Bool, if◌then◌else◌, length, ltb, ◌≡◌, ◌↔◌, ◌⊎◌, inl, inr, true, false, sym, ap, none, some,
  Option, ◌&&◌, List, [], ◌∷◌, arith, Bool-cases, Option-cases,
}
use past_work.Base.Text.{CString, codes}
use past_work.Tiny.Server.{
  File, Host, parse_uri, maxline, serve_static, serve_dynamic, clienterror, same_word,
  read_requesthdrs, Request, doit,
}
use past_work.Tiny.Answers.{Allowed}

-- The three digits behind `HTTP/1.0 ` in a status line.
abbrev status_code : CString → CString
status_code (h ∷ t ∷ u ∷ p ∷ slash ∷ one ∷ dot ∷ nought ∷ space ∷ a ∷ b ∷ c ∷ s) = a ∷ b ∷ c ∷ []
status_code s = []

abbrev pub status : List CString → CString
status [] = []
status (l ∷ answer) = status_code l

-- The reasons for a refusal, each with its status.
pub record Refusals (host : Host) (r : Request) (answer : List CString) : Type 0 where
  pub not_implemented : status answer ≡ codes "501" ↔ same_word r.method (codes "GET") ≡ false
  pub not_found :
      status answer ≡ codes "404"
      ↔ (same_word r.method (codes "GET") ≡ true) × (host.file (parse_uri r.uri).filename ≡ none)
  pub forbidden :
      status answer ≡ codes "403"
      ↔ (same_word r.method (codes "GET") ≡ true)
        × (f : File) × (host.file (parse_uri r.uri).filename ≡ some f)
        × ¬ Allowed (parse_uri r.uri) f

status-of :
    {answer answer' : List CString} → some answer ≡ some answer' → status answer' ≡ status answer
status-of e = sym (ap (λ (o : Option (List CString)). elim o [ none ↦ [] | some x ↦ status x ]) e)

status-guarded :
    (b : Bool) (answer : List CString) {answer' : List CString}
    → (if b then some answer else none) ≡ some answer'
    → status answer' ≡ status answer
status-guarded true answer e = status-of e
status-guarded false answer e = absurd (cc)

clienterror-status :
    (a b c : ℕ) (cause shortmsg longmsg : CString) {answer : List CString}
    → clienterror cause (a ∷ b ∷ c ∷ []) shortmsg longmsg ≡ some answer
    → status answer ≡ a ∷ b ∷ c ∷ []
unfolding clienterror
clienterror-status a b c cause shortmsg longmsg {answer} e = status-guarded _ _ e

serve_static-status :
    (filename content : CString) {answer : List CString}
    → serve_static filename content ≡ some answer
    → status answer ≡ codes "200"
unfolding serve_static
serve_static-status filename content {answer} e = status-guarded _ _ e

module _ (host : Host) (r : Request) where
  doit-forbidden :
      (answer : List CString) (f : File)
      → same_word r.method (codes "GET") ≡ true
      → read_requesthdrs r.headers ≡ true
      → ltb (length (parse_uri r.uri).filename) maxline ≡ true
      → host.file (parse_uri r.uri).filename ≡ some f
      → doit host r ≡ some answer
      → ((status answer ≡ codes "403") × ¬ Allowed (parse_uri r.uri) f)
        ⊎ ((status answer ≡ codes "200") × Allowed (parse_uri r.uri) f)
  unfolding doit serve_dynamic
  doit-forbidden answer f get complete fits found e =
      elim (Bool-cases (parse_uri r.uri).is_static) [
        | inl static ↦ elim (Bool-cases (f.regular && f.readable)) [
          | inl fine ↦ inr (
            serve_static-status (parse_uri r.uri).filename f.content (ground arith),
            (ground arith, ground arith),
          )
          | inr bad ↦ inl (
            clienterror-status b'4' b'0' b'3' (parse_uri r.uri).filename (codes "Forbidden")
                (codes "Tiny couldn't read the file") (ground arith),
            λ allowed. ground arith,
          )
        ]
        | inr dynamic ↦ elim (Bool-cases (f.regular && f.executable)) [
          | inl fine ↦ inr (
            status-of
                {answer = serve_dynamic host (parse_uri r.uri).filename (parse_uri r.uri).cgiargs}
                (ground arith),
            (ground arith, ground arith),
          )
          | inr bad ↦ inl (
            clienterror-status b'4' b'0' b'3' (parse_uri r.uri).filename (codes "Forbidden")
                (codes "Tiny couldn't run the CGI program") (ground arith),
            λ allowed. ground arith,
          )
        ]
      ]

  -- When `doit` answers a request, the status is 501 exactly when the method is not GET, 404
  -- exactly when the method is GET and the file that the URI names is not there, and 403 exactly
  -- when the method is GET and the file is there, but is not a regular one or may not be read or,
  -- for a program, executed.
  pub doit-Refusals : (answer : List CString) → doit host r ≡ some answer → Refusals host r answer
  unfolding doit
  doit-Refusals answer e = elim (Bool-cases (same_word r.method (codes "GET"))) [
    | inr other ↦
        let refused : status answer ≡ codes "501" =
          clienterror-status b'5' b'0' b'1' r.method (codes "Not Implemented")
            (codes "Tiny does not implement this method") (ground arith) in
        record {
          not_implemented = (λ z. other, λ z. refused);
          not_found = (λ z. absurd (ground arith), λ z. absurd (ground arith));
          forbidden = (λ z. absurd (ground arith), λ z. absurd (ground arith));
        }
    | inl get ↦ elim (Bool-cases (read_requesthdrs r.headers)) [
      | inr endless ↦ absurd (ground arith)
      | inl complete ↦ elim (Bool-cases (ltb (length (parse_uri r.uri).filename) maxline)) [
        | inr long ↦ absurd (ground arith)
        | inl fits ↦ elim (Option-cases (host.file (parse_uri r.uri).filename)) [
          | inl missing ↦
              let refused : status answer ≡ codes "404" =
                clienterror-status b'4' b'0' b'4' (parse_uri r.uri).filename (codes "Not found")
                  (codes "Tiny couldn't find this file") (ground arith) in
              record {
                not_implemented = (λ z. absurd (ground arith), λ z. absurd (ground arith));
                not_found = (λ z. (get, missing), λ z. refused);
                forbidden = (
                  λ z. absurd (ground arith),
                  λ z. let (g, f, found, n) = z in absurd (ground arith),
                );
              }
          | inr (f, found) ↦ elim (doit-forbidden answer f get complete fits found e) [
            | inl (refused, bad) ↦ record {
              not_implemented = (λ z. absurd (ground arith), λ z. absurd (ground arith));
              not_found = (λ z. absurd (ground arith), λ z. absurd (ground arith));
              forbidden = (λ z. (get, f, found, bad), λ z. refused);
            }
            | inr (ok, allowed) ↦ record {
              not_implemented = (λ z. absurd (ground arith), λ z. absurd (ground arith));
              not_found = (λ z. absurd (ground arith), λ z. absurd (ground arith));
              forbidden = (
                λ z. absurd (ground arith),
                λ z.
                    let (g, f', found', n) = z in
                    let same : f' ≡ f = ground arith in absurd (n (rw same allowed)),
              );
            }
          ]
        ]
      ]
    ]
  ]
