-- ===== src/Proxy/Forward.antt =====
-- What the server gets is what the client sent: the parts that proxy.c takes a request into make up
-- the text again.
use past_work.Base.{
  ℕ, suc, ◌+◌, ◌<◌, ◌≤◌, ◌≡◌, refl, ap, sym, ◌∙◌, inl, inr, true, false, ◌≢◌, All, List, [], ◌∷◌,
  ◌++◌, ltb, if◌then◌else◌, arith, length, Bool-cases, Option-cases,
}
use mathlib.Core.List.{append_assoc}
use past_work.Base.Text.{CString, codes, str_eq, str_eq_sound, str_eq_self}
use past_work.Base.Search.{after_prefix, cut, after_prefix_sound, cut_sound}
use past_work.Proxy.Requests.{
  Outcome, ok, fault, exits, ◌>>=◌, RequestLine, HeaderLine, parse_uri, parse_header, crlf,
  headers_from, print_header, print_headers, server_request, parse_request, second_token, maxline,
}

-- A header that `parse_header` accepts is printed as it was read, and fits its arrays.
print_header-parse_header :
    (buf : CString) (h : HeaderLine)
    → parse_header buf ≡ ok h
    → (print_header h ≡ buf) × (length h.headername < 32) × (length h.header < 64)
unfolding parse_header
print_header-parse_header buf h e = elim (Option-cases (cut (codes ": ") buf)) [
  | inl no_colon ↦ absurd (ground arith)
  | inr ((name, value), found) ↦
      let n : h.headername ≡ name = ground arith in
      let v : h.header ≡ value = ground arith in
      (rw (n, v) (sym (cut_sound (codes ": ") buf name value found)), ground arith, ground arith)
]

pub >>=-ok {ℓ κ} :
    {A : Type ℓ} {B : Type κ} (m : Outcome A) (f : A → Outcome B) {b : B}
    → (m >>= f) ≡ ok b
    → (a : A) × (m ≡ ok a) × (f a ≡ ok b)
>>=-ok (ok a) f e = (a, refl, e)
>>=-ok fault f e = cc
>>=-ok (exits code) f e = cc

-- The text of some lines.
abbrev pub text : List CString → CString
text [] = []
text (l ∷ ls) = l ++ text ls

-- What `parse_request` makes of the lines behind the request line: they are the lines of the headers,
-- an empty line, and lines that it has not read. There are as many headers as lines in front of the
-- empty one, and at most as many as the array holds.
record Split (n : ℕ) (lines : List CString) (hs : List HeaderLine) : Type 0 where
  pub header_lines : List CString
  pub rest : List CString
  pub parts : lines ≡ header_lines ++ crlf ∷ rest
  pub first_blank : All (λ l. l ≢ crlf) header_lines
  pub printed : print_headers hs ≡ text header_lines
  pub count : length header_lines ≡ length hs
  pub bound : n ≤ 20 → n + length hs ≤ 20

ends :
    (n : ℕ) (buf : CString) (lines : List CString) (hs : List HeaderLine)
    → str_eq buf crlf ≡ true
    → hs ≡ []
    → Split n (buf ∷ lines) hs
unfolding print_headers
ends n buf lines hs blank none_left =
    let b : buf ≡ crlf = str_eq_sound buf crlf blank in
    rw none_left (record {
      header_lines = [];
      rest = lines;
      parts = ap (λ (l : CString). l ∷ lines) b;
      first_blank = tt;
      printed = refl;
      count = refl;
      bound = λ k. omega arith;
    })

not_blank : (buf : CString) → str_eq buf crlf ≡ false → buf ≢ crlf
not_blank buf more e = let same : str_eq buf crlf ≡ true = rw e (str_eq_self crlf) in cc

Split-headers_from :
    (n : ℕ) (buf : CString) (lines : List CString) (hs : List HeaderLine)
    → headers_from n buf lines ≡ ok hs
    → Split n (buf ∷ lines) hs
unfolding headers_from print_headers
Split-headers_from n buf [] hs e = elim (Bool-cases (str_eq buf crlf)) [
  | inl blank ↦ ends n buf [] hs blank (ground arith)
  | inr more ↦
      let e' : (parse_header buf >>= λ h. if ltb n 20 then exits 0 else fault) ≡ ok hs =
        ground arith in
      let (h, got, bad) = >>=-ok (parse_header buf) _ e' in absurd (ground arith)
]
Split-headers_from n buf (next ∷ lines) hs e = elim (Bool-cases (str_eq buf crlf)) [
  | inl blank ↦ ends n buf (next ∷ lines) hs blank (ground arith)
  | inr more ↦
      let go : Outcome (List HeaderLine) =
        if ltb n 20 then headers_from (suc n) next lines else fault in
      let e' : (parse_header buf >>= λ h. go >>= λ rest. ok (h ∷ rest)) ≡ ok hs = ground arith in
      let (h, got, e₁) = >>=-ok (parse_header buf) _ e' in
      let (tail, run, e₂) = >>=-ok go _ e₁ in
      let room : n < 20 = ground arith in
      let run' : headers_from (suc n) next lines ≡ ok tail = ground arith in
      let made : hs ≡ h ∷ tail = ground arith in
      let split = Split-headers_from (suc n) next lines tail run' in
      let line : print_header h ≡ buf = (print_header-parse_header buf h got).0 in
      rw made (record {
        header_lines = buf ∷ split.header_lines;
        rest = split.rest;
        parts = ap (◌∷◌ buf) split.parts;
        first_blank = (not_blank buf more, split.first_blank);
        printed = rw (line, split.printed);
        count = ap suc split.count;
        bound = λ k. omega (arith, split.bound (omega arith));
      })
]

-- A request URI that `parse_uri` accepts is `http://`, the host, a colon, the port and the path;
-- the host and the port are shorter than their arrays, and the path begins with a slash.
pub parse_uri-parts :
    (uri : CString) (r : RequestLine)
    → parse_uri uri ≡ ok r
    → (uri ≡ codes "http://" ++ (r.hostname ++ codes ":" ++ (r.port ++ r.path)))
      × (length r.hostname < 64)
      × (length r.port < 20)
      × ((p : CString) × (r.path ≡ b'/' ∷ p))
unfolding parse_uri
parse_uri-parts uri r e = elim (Option-cases (after_prefix (codes "http://") uri)) [
  | inl no_http ↦ absurd (ground arith)
  | inr (rest, found) ↦ elim (Option-cases (cut (codes ":") rest)) [
    | inl no_colon ↦ absurd (ground arith)
    | inr ((host, after_host), colon) ↦ elim (Option-cases (cut (codes "/") after_host)) [
      | inl no_slash ↦ absurd (ground arith)
      | inr ((digits, p), slash) ↦
          let h : r.hostname ≡ host = ground arith in
          let d : r.port ≡ digits = ground arith in
          let q : r.path ≡ b'/' ∷ p = ground arith in
          (
            rw (h, d, q)
                (after_prefix_sound (codes "http://") uri rest found
                  ∙ ap (λ (t : CString). codes "http://" ++ t)
                      (cut_sound (codes ":") rest host after_host colon
                        ∙ ap (λ (t : CString). host ++ codes ":" ++ t)
                            (cut_sound (codes "/") after_host digits p slash
                              ∙ append_assoc digits (codes "/") p))),
            ground arith,
            ground arith,
            (p, q),
          )
    ]
  ]
]

-- The request line that the server gets.
abbrev pub request_line : RequestLine → CString
request_line line = codes "GET " ++ line.path ++ codes " HTTP/1.0" ++ crlf

composed :
    (line : RequestLine) (hs : List HeaderLine) (t : CString)
    → server_request line hs ≡ ok t
    → (t ≡ request_line line ++ print_headers hs ++ crlf) × (length t < maxline)
unfolding server_request
composed line hs t e = (ground arith, ground arith)

parsed_headers :
    (first next : CString) (lines : List CString) (line : RequestLine) (hs : List HeaderLine)
    → parse_request (first ∷ next ∷ lines) ≡ ok (line, hs)
    → headers_from 0 next lines ≡ ok hs
unfolding parse_request
parsed_headers first next lines line hs e =
    let (uri, _, e₁) = >>=-ok (second_token first) _ e in
    let (made, _, e₂) = >>=-ok (parse_uri uri) _ e₁ in
    let (headers, run, e₃) = >>=-ok (headers_from 0 next lines) _ e₂ in
    let same : hs ≡ headers = ground arith in rw same run

-- When `parse_request` accepts a request with lines behind the request line, and the server's
-- request fits its buffer, then the lines behind the request line are those of the headers, none of
-- them the empty line, then an empty line, and lines that are not read. The text for the server is
-- the new request line, those header lines byte for byte, and an empty line. There are as many
-- headers as header lines and no more than the array holds, and the text is shorter than the
-- buffer.
pub server_request-parse_request :
    (first next : CString) (lines : List CString) (line : RequestLine) (hs : List HeaderLine)
    → (t : CString) → parse_request (first ∷ next ∷ lines) ≡ ok (line, hs)
    → server_request line hs ≡ ok t
    → (header_lines : List CString) × (rest : List CString) × (next ∷ lines
        ≡ header_lines ++ crlf ∷ rest)
      × All (λ l. l ≢ crlf) header_lines
      × (t ≡ request_line line ++ (text header_lines ++ crlf))
      × (length header_lines ≡ length hs)
      × (length hs ≤ 20)
      × (length t < maxline)
server_request-parse_request first next lines line hs t e f =
    let (made, room) = composed line hs t f in
    let split = Split-headers_from 0 next lines hs (parsed_headers first next lines line hs e) in
    (
      split.header_lines,
      split.rest,
      split.parts,
      split.first_blank,
      made
          ∙ append_assoc (request_line line) (print_headers hs) crlf
          ∙ ap (λ (u : CString). request_line line ++ (u ++ crlf)) split.printed,
      split.count,
      omega (arith, split.bound (omega arith)),
      room,
    )
