-- ===== src/Proxy/Again.antt =====
-- `doit` of proxy.c, twice for the same request.
use past_work.Base.{
  ℕ, zero, suc, ap, ◌<◌, ◌≡◌, refl, sym, ◌∙◌, inl, inr, false, none, some, List, [], ◌∷◌, ◌++◌,
  ◌==◌, ltb, if◌then◌else◌, arith, length, All, Option-cases,
}
use past_work.Base.Text.{CString}
use past_work.Proxy.Cache.{CacheLine, Cache, reader, line_at, strcpy, writer}
use past_work.Proxy.Requests.{
  Outcome, ok, ◌>>=◌, copy_into, maxline, RequestLine, HeaderLine, parse_request, server_request,
}
use past_work.Proxy.Serve.{
  max_object_size, before_nul, relay, Answer, from_cache, from_server, doit,
}
use past_work.Proxy.Forward.{>>=-ok}
use past_work.Proxy.Replace.{Sound, place, place_room, new_line, reader-writer_self}

-- A text with no NUL in it.
abbrev pub NoNul : CString → Type 0
NoNul = All (λ c. (c == 0) ≡ false)

before_nul-NoNul : (s : CString) → NoNul s → before_nul s ≡ s
unfolding before_nul
before_nul-NoNul [] h = refl
before_nul-NoNul (c ∷ s) h = ground (arith, h.0, before_nul-NoNul s h.1)

-- The name of an object in the cache.
abbrev object : RequestLine → CString
object line = line.hostname ++ line.path

-- Every payload has its array.
abbrev pub Arrays : List CacheLine → Type 0
Arrays = All (λ l. length l.payload ≡ max_object_size)

line_at-Arrays :
    (ls : List CacheLine) (i : ℕ)
    → Arrays ls
    → i < length ls
    → length (line_at ls i).payload ≡ max_object_size
unfolding line_at
line_at-Arrays [] i h k = absurd (omega arith)
line_at-Arrays (l ∷ ls) zero h k = h.0
line_at-Arrays (l ∷ ls) (suc i) h k = line_at-Arrays ls i h.1 (omega arith)

-- An array that a text fits into holds it, a NUL, and what was behind them.
strcpy-fits :
    (array s : CString)
    → length s < length array
    → (stale : CString) × (strcpy array s ≡ s ++ 0 ∷ stale)
      × (length (strcpy array s) ≡ length array)
unfolding strcpy
strcpy-fits [] s h = absurd (omega arith)
strcpy-fits (b ∷ array) [] h = (array, refl, refl)
strcpy-fits (b ∷ array) (c ∷ s) h =
    let (stale, e, size) = strcpy-fits array s (omega arith) in (stale, ap (◌∷◌ c) e, ap suc size)

-- A request that `doit` has taken apart: its parts, and the name of the object fits its array.
record Asked (request : List CString) : Type 0 where
  pub line : RequestLine
  pub headers : List HeaderLine
  pub parsed : parse_request request ≡ ok (line, headers)
  pub named : copy_into maxline (object line) ≡ ok (object line)

doit-hit :
    (server : CString → CString → CString → List CString) (request : List CString) (c : Cache)
    → (q : Asked request) (i : ℕ) (l : CacheLine) → reader (object q.line) c ≡ some (i, l)
    → doit server request c ≡ ok (from_cache l.payload, writer (object q.line) [] (some i) c)
unfolding doit
doit-hit server request c q i l hit = rw (q.parsed, ◌>>=◌, q.named, ◌>>=◌, hit)

module _ (server : CString → CString → CString → List CString) (request : List CString) where
  -- The answer of the server, and the cache after it.
  abbrev kept : Cache → RequestLine → CString → Answer × Cache
  kept c line a = (
    from_server a,
    if ltb (length a) max_object_size then writer (object line) (before_nul a) none c else c,
  )

  abbrev fetched : Cache → RequestLine → List HeaderLine → Outcome (Answer × Cache)
  fetched c line hs = server_request line hs >>= λ t.
      relay (server line.hostname line.port t) >>= λ a. ok (kept c line a)

  doit-fetched :
      (c : Cache) (q : Asked request)
      → reader (object q.line) c ≡ none
      → doit server request c ≡ fetched c q.line q.headers
  unfolding doit
  doit-fetched c q miss = rw (q.parsed, ◌>>=◌, q.named, ◌>>=◌, miss)

  doit-kept :
      (c c' : Cache) (line : RequestLine) (hs : List HeaderLine) (a : CString)
      → fetched c line hs ≡ ok (from_server a, c')
      → length a < max_object_size
      → c' ≡ writer (object line) (before_nul a) none c
  doit-kept c c' line hs a run small =
      let (t, _, e₁) = >>=-ok (server_request line hs) _ run in
      let (b, _, e₂) = >>=-ok (relay (server line.hostname line.port t)) _ e₁ in
      let same : b ≡ a = ground arith in
      let kept_now : c' ≡ (kept c line b).1 = ground arith in ground arith

  doit-Asked :
      (c c' : Cache) (a : CString) → doit server request c ≡ ok (from_server a, c') → Asked request
  unfolding doit
  doit-Asked c c' a run =
      let ((line, hs), e, run') = >>=-ok (parse_request request) _ run in
      let (uri, named, _) = >>=-ok (copy_into maxline (object line)) _ run' in
      let same : uri ≡ object line = ground arith in
      record { line = line; headers = hs; parsed = e; named = named ∙ ap ok same }

  -- When `doit`, with a sound cache that has an array of MAX_OBJECT_SIZE bytes for each payload,
  -- has relayed an answer of a server that is shorter than MAX_OBJECT_SIZE and has no NUL in it,
  -- the next `doit` of the same request sends from the cache that answer, then a NUL and further
  -- bytes of the array, MAX_OBJECT_SIZE bytes in all, whatever the server would answer then.
  pub doit-from_cache :
      (later : CString → CString → CString → List CString) (c c' : Cache) (a : CString)
      → Sound c
      → Arrays c.lines
      → doit server request c ≡ ok (from_server a, c')
      → length a < max_object_size
      → NoNul a
      → (c'' : Cache) × (stale : CString) × (doit later request c'
          ≡ ok (from_cache (a ++ 0 ∷ stale), c''))
        × (length (a ++ 0 ∷ stale) ≡ max_object_size)
  doit-from_cache later c c' a v arrays run small h =
      let q = doit-Asked c c' a run in
      elim (Option-cases (reader (object q.line) c)) [
        | inr ((i, l), hit) ↦ let cached = doit-hit server request c q i l hit in absurd (cc)
        | inl miss ↦
            let kept_now : c' ≡ writer (object q.line) (before_nul a) none c =
              doit-kept c c' q.line q.headers a (sym (doit-fetched c q miss) ∙ run) small in
            let found = reader-writer_self (object q.line) a c v miss in
            let whole : reader (object q.line) c' ≡ some (place c, new_line (object q.line) a c) =
              rw (kept_now, before_nul-NoNul a h) found in
            let size =
              line_at-Arrays c.lines (place c) arrays
                (omega (arith, place_room (object q.line) a c v, v.size)) in
            let (stale, held, full) =
              strcpy-fits (line_at c.lines (place c)).payload a (omega (arith, small, size)) in
            let touched = writer (object q.line) [] (some (place c)) c' in
            (
              touched,
              stale,
              doit-hit later request c' q (place c) (new_line (object q.line) a c) whole
                  ∙ ap (λ (t : CString). ok (from_cache t, touched)) held,
              ap length (sym held) ∙ full ∙ size,
            )
      ]
