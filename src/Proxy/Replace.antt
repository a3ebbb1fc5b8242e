-- ===== src/Proxy/Replace.antt =====
-- `writer` of proxy.c: what is stored, what is kept and what is given up.
use past_work.Base.{
  ℕ, ◌+◌, ◌%◌, ◌^◌, ◌≤◌, ◌<◌, ◌≡◌, refl, ap, sym, subst, ◌==◌, ◌∙◌, ◌⊎◌, inl, inr, false, none,
  some, List, [], ◌∷◌, ltb, if◌then◌else◌, arith, All, length, set, length-set, Bool-cases,
}
use past_work.Base.Text.{CString, str_eq}
use past_work.Proxy.Cache.{CacheLine, Cache, num_cache_line, reader, lru, line_at, stored, writer}
use past_work.Proxy.Lookup.{search-set_self, search-set_ne, lru-Oldest, search-line_at}

-- A cache with all its lines, of which some are in use.
pub record Sound (c : Cache) : Type 0 where
  pub size : length c.lines ≡ num_cache_line
  pub used : c.usedcnt ≤ num_cache_line

-- Where `writer` puts a new object.
abbrev pub place : Cache → ℕ
place c = if ltb c.usedcnt num_cache_line then c.usedcnt else lru c.lines

abbrev pub new_line : CString → CString → Cache → CacheLine
new_line uri buf c = stored uri buf c (place c)

victim-oldest :
    (ls : List CacheLine)
    → length ls ≡ num_cache_line
    → (i : ℕ) (l : CacheLine) → i ≡ lru ls
    → line_at ls i ≡ l
    → All (λ x. l.timestamp ≤ x.timestamp) ls
victim-oldest [] e i l same at = absurd (omega arith)
victim-oldest (x ∷ ls) e i l same at =
    subst (λ (m : CacheLine). All (λ x. m.timestamp ≤ x.timestamp) (x ∷ ls))
      (ap (line_at (x ∷ ls)) (sym same) ∙ at) (lru-Oldest x ls).1

module _ (uri buf : CString) (c : Cache) (v : Sound c) where
  pub writer-place : writer uri buf none c ≡ record {
    lines = set c.lines (place c) (new_line uri buf c);
    usedcnt = if ltb c.usedcnt num_cache_line then c.usedcnt + 1 else c.usedcnt;
    gtime = (c.gtime + 1) % 2 ^ 64;
  }
  unfolding writer
  writer-place = ground arith

  lru_room : (ls : List CacheLine) → length ls ≡ num_cache_line → lru ls < num_cache_line
  lru_room [] e = absurd (omega arith)
  lru_room (l ∷ ls) e = omega (arith, (lru-Oldest l ls).0)

  pub place_room : place c < num_cache_line
  place_room = ground (arith, lru_room c.lines v.size)

  -- In a cache with all its lines, of which at most all are in use, storing a new object keeps it
  -- so.
  pub writer-Sound : Sound (writer uri buf none c)
  writer-Sound =
      rw writer-place
        (record { size = length-set c.lines (place c) _ ∙ v.size; used = ground (arith, v.used) })

  pub reader-writer_self :
      reader uri c ≡ none → reader uri (writer uri buf none c) ≡ some (place c, new_line uri buf c)
  unfolding reader
  reader-writer_self miss = rw writer-place (
      search-set_self (new_line uri buf c) uri c.usedcnt _ 0 (place c) c.lines refl miss
        (ground (arith, place_room, v.used)) (ground (arith, place_room, v.used))
        (omega (arith, place_room, v.size))
      ∙ ap (λ (n : ℕ). some (n, new_line uri buf c)) (omega arith))

  -- When `writer` stores a new object in a sound cache, each object of another name that could be
  -- read can be read as before, but for one: when all lines are in use, the object whose line has
  -- the least timestamp, which the new one takes.
  pub reader-writer_ne :
      (q : CString) (i : ℕ) (l : CacheLine)
      → str_eq uri q ≡ false
      → reader q c ≡ some (i, l)
      → (reader q (writer uri buf none c) ≡ some (i, l))
        ⊎ ((c.usedcnt ≡ num_cache_line)
            × (i ≡ lru c.lines)
            × All (λ x. l.timestamp ≤ x.timestamp) c.lines)
  unfolding reader
  reader-writer_ne q i l ne hit = elim (Bool-cases (i == place c)) [
    | inr kept ↦ inl (
        rw writer-place (
          search-set_ne (new_line uri buf c) q c.usedcnt _ 0 (place c) i c.lines l ne hit
            (ground arith) (ground arith)))
    | inl lost ↦
        let (j, e, below, room, at, name) = search-line_at q c.usedcnt 0 i c.lines l hit in
        inr (
          ground (arith, v.used),
          ground (arith, v.used),
          victim-oldest c.lines v.size i l (ground (arith, v.used))
              (let same : i ≡ j = e ∙ omega arith in rw same at),
        )
  ]
