-- ===== src/Proxy/Cache.antt =====
-- The object cache of proxy.c: `initialize_cache`, the search of `reader` and the update of
-- `writer`, each of which runs under the semaphore `w`.
use past_work.Base.{
  ℕ, zero, suc, ◌+◌, ◌-◌, ◌%◌, ◌^◌, Option, none, some, List, [], ◌∷◌, ltb, if◌then◌else◌, set,
}
use past_work.Base.Text.{CString, str_eq}

-- `cache_line`: the text of the name, and all the bytes of the array of the payload.
pub record CacheLine : Type 0 where
  pub name : CString
  pub payload : CString
  pub timestamp : ℕ

abbrev pub num_cache_line : ℕ
num_cache_line = 10

-- The globals of the cache. `usedcnt` lines are in use; `gtime` is an `unsigned long`.
pub record Cache : Type 0 where
  pub lines : List CacheLine
  pub usedcnt : ℕ
  pub gtime : ℕ

-- `k` lines from the index `i` on, with the arrays that `malloc` gives. No name is read before it is
-- written.
abbrev pub fresh_lines : (malloc : ℕ → CString) → (k i : ℕ) → List CacheLine
fresh_lines malloc zero i = []
fresh_lines malloc (suc k) i =
    record { name = []; payload = malloc i; timestamp = 2 ^ 64 - 1 } ∷ fresh_lines malloc k (suc i)

-- `initialize_cache`
abbrev pub initialize_cache : (malloc : ℕ → CString) → Cache
initialize_cache malloc = record {
  lines = fresh_lines malloc num_cache_line 0;
  usedcnt = 0;
  gtime = 0;
}

-- The loop of `reader`: the index and the line of the first of `k` lines with the name.
unfoldable pub search_from : CString → ℕ → ℕ → List CacheLine → Option (ℕ × CacheLine)
search_from uri zero i ls = none
search_from uri (suc k) i [] = none
search_from uri (suc k) i (l ∷ ls) =
    if str_eq l.name uri then some (i, l) else search_from uri k (suc i) ls

-- `reader`: the index of the line, with the array of the payload, the whole of which it sends to the
-- client.
unfoldable pub reader : CString → Cache → Option (ℕ × CacheLine)
unfolding search_from
reader uri c = search_from uri c.usedcnt 0 c.lines

-- The loop of `writer` that looks for the oldest line: the best index and its time so far, and the
-- index of the next line.
unfoldable pub lru_from : ℕ → ℕ → ℕ → List CacheLine → ℕ
lru_from lru_i lru_t i [] = lru_i
lru_from lru_i lru_t i (l ∷ ls) =
    let older = ltb l.timestamp lru_t in
    lru_from (if older then i else lru_i) (if older then l.timestamp else lru_t) (suc i) ls

unfoldable pub lru : List CacheLine → ℕ
unfolding lru_from
lru [] = 0
lru (l ∷ ls) = lru_from 0 l.timestamp 1 ls

unfoldable pub line_at : List CacheLine → ℕ → CacheLine
line_at [] i = record { name = []; payload = []; timestamp = 0 }
line_at (l ∷ ls) zero = l
line_at (l ∷ ls) (suc i) = line_at ls i

-- `strcpy` into an array: the text and a NUL stand over what was there, and what is behind them stays.
-- The callers of `writer` give no text that is too long.
unfoldable pub strcpy : (array s : CString) → CString
strcpy [] s = []
strcpy (b ∷ array) [] = 0 ∷ array
strcpy (b ∷ array) (c ∷ s) = c ∷ strcpy array s

-- The line at an index with another name, payload and time.
abbrev pub stored : CString → CString → Cache → ℕ → CacheLine
stored uri buf c i = record {
  name = uri;
  payload = strcpy (line_at c.lines i).payload buf;
  timestamp = c.gtime;
}

-- `writer`, with `cache_i` being -1 as `none`.
unfoldable pub writer : CString → CString → Option ℕ → Cache → Cache
writer uri buf cache_i c =
    let c' : Cache = elim cache_i [
      | some i ↦ record c {
        lines = set c.lines i (record (line_at c.lines i) { timestamp = c.gtime });
      }
      | none ↦
          if ltb c.usedcnt num_cache_line
          then record c {
            lines = set c.lines c.usedcnt (stored uri buf c c.usedcnt);
            usedcnt = c.usedcnt + 1;
          }
          else record c { lines = set c.lines (lru c.lines) (stored uri buf c (lru c.lines)) }
    ] in
    record c' { gtime = (c.gtime + 1) % 2 ^ 64 }
