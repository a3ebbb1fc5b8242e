-- ===== src/Scheduler/Unlink.antt =====
-- Taking a process out of a chain of scheduler.c: the walks to its predecessor, and the links
-- once the predecessor points past it.
use past_work.Base.Chains.{Chain, Chain-frame, ne_of_has}
use past_work.Base.{
  ℕ, suc, zero, ◌<◌, ◌≡◌, ◌≢◌, refl, last?, true, false, Option, some, List, [], ◌∷◌, ◌++◌, arith,
  ◌==◌, length, has, Distinct,
}
use past_work.Scheduler.State.{Process, Sched, done, ◌>>=◌, continue}
use past_work.Scheduler.Queues.{before_last, before_id}

-- The last of `x` and the processes behind it.
abbrev pub final : ℕ → List ℕ → ℕ
final x [] = x
final x (w ∷ ws) = final w ws

pub has-final : (x : ℕ) (ws ys : List ℕ) → has (final x ws) (x ∷ ws ++ ys) ≡ true
has-final x [] ys = ground arith
has-final x (w ∷ ws) ys = ground (arith, has-final w ws ys)

pub has-middle : (ws : List ℕ) (z : ℕ) (post : List ℕ) → has z (ws ++ z ∷ post) ≡ true
has-middle [] z post = ground arith
has-middle (w ∷ ws) z post = ground (arith, has-middle ws z post)

has-without :
    (i : ℕ) (ws : List ℕ) (z : ℕ) (post : List ℕ)
    → has i (ws ++ z ∷ post) ≡ false
    → has i (ws ++ post) ≡ false
has-without i [] z post h = ground arith
has-without i (w ∷ ws) z post h = ground (arith, has-without i ws z post)

pub Distinct-without :
    (ws : List ℕ) (z : ℕ) (post : List ℕ) → Distinct (ws ++ z ∷ post) → Distinct (ws ++ post)
Distinct-without [] z post d = d.1
Distinct-without (w ∷ ws) z post d = (has-without w ws z post d.0, Distinct-without ws z post d.1)

pub not-has-middle :
    (ws : List ℕ) (z : ℕ) (post : List ℕ) → Distinct (ws ++ z ∷ post) → has z (ws ++ post) ≡ false
not-has-middle [] z post d = d.0
not-has-middle (w ∷ ws) z post d =
    let ne : w ≢ z = ne_of_has (ws ++ z ∷ post) d.0 (has-middle ws z post) in
    ground (arith, not-has-middle ws z post d.1)

-- When the predecessor of `z` points to what followed `z`, the chain is that without `z`.
pub Chain-unlink :
    {next next' : ℕ → Option ℕ} (p : Option ℕ) (x : ℕ) (ws : List ℕ) (z : ℕ) (post : List ℕ)
    → Chain next p (x ∷ ws ++ z ∷ post)
    → Distinct (x ∷ ws ++ z ∷ post)
    → next' (final x ws) ≡ next z
    → ((i : ℕ) → has i (x ∷ ws ++ z ∷ post) ≡ true → i ≢ final x ws → i ≢ z → next' i ≡ next i)
    → Chain next' p (x ∷ ws ++ post)
Chain-unlink {next} {next'} p x [] z post (e, (f, c)) d g same = (
  e,
  rw g (
      Chain-frame (next z) post
        (λ i h.
          let nx : x ≢ i = ne_of_has post (ground arith) h in
          let nz : z ≢ i = ne_of_has post d.1.0 h in
          same i (ground arith) (ground arith) (ground arith))
        c),
)
Chain-unlink {next} {next'} p x (w ∷ ws) z post (e, c) d g same =
    let nf : x ≢ final w ws = ne_of_has (w ∷ ws ++ z ∷ post) d.0 (has-final w ws (z ∷ post)) in
    let nz : x ≢ z = ne_of_has (w ∷ ws ++ z ∷ post) d.0 (has-middle (w ∷ ws) z post) in
    let q : next' x ≡ next x = same x (ground arith) nf nz in
    (e, rw q (Chain-unlink (next x) w ws z post c d.1 g (λ i h. same i (ground arith))))

-- The last process before `z` points to it.
pub Chain-final :
    (next : ℕ → Option ℕ) (q : Option ℕ) (x : ℕ) (ws : List ℕ) (z : ℕ) (post : List ℕ)
    → Chain next q (x ∷ ws ++ z ∷ post)
    → next (final x ws) ≡ some z
Chain-final next q x [] z post (e, (f, c)) = f
Chain-final next q x (w ∷ ws) z post (e, c) = Chain-final next (next x) w ws z post c

pub last?-final : (x : ℕ) (ws : List ℕ) → last? (x ∷ ws ++ []) ≡ some (final x ws)
last?-final x [] = refl
last?-final x (w ∷ ws) = last?-final w ws

module _ (next : Process → Option ℕ) (s : Sched) where
  abbrev link : ℕ → Option ℕ
  link i = next (s.processes i)

  Chain-head :
      (p : Option ℕ) (ws : List ℕ) (z : ℕ) → Chain link p (ws ++ z ∷ []) → (q : ℕ) × (p ≡ some q)
  Chain-head p [] z c = (z, c.0)
  Chain-head p (w ∷ ws) z c = (w, c.0)

  -- The walk to the process before the last one ends there, with the rounds that it has.
  pub before_last-final :
      (k x : ℕ) (ws : List ℕ) (z : ℕ)
      → Chain link (link x) (ws ++ z ∷ [])
      → length ws < k
      → before_last k next x s ≡ done (final x ws) s
  unfolding before_last
  before_last-final zero x ws z c fuel = absurd (omega arith)
  before_last-final (suc k) x [] z (e, f) fuel = rw (e, f, ◌>>=◌, continue)
  before_last-final (suc k) x (w ∷ ws) z (e, c) fuel =
      let (q, f) = Chain-head (link w) ws z c in
      rw (e, f, ◌>>=◌, continue) (before_last-final k w ws z c (omega arith))

  -- The walk to the process before the one with a number.
  pub before_id-final :
      (k id x : ℕ) (ws : List ℕ) (z : ℕ) (post : List ℕ)
      → Chain link (link x) (ws ++ z ∷ post)
      → ((i : ℕ) → has i ws ≡ true → ((s.processes i).process_id == id) ≡ false)
      → ((s.processes z).process_id == id) ≡ true
      → length ws < k
      → before_id k next id x s ≡ done (final x ws) s
  unfolding before_id
  before_id-final zero id x ws z post c other same fuel = absurd (omega arith)
  before_id-final (suc k) id x [] z post (e, f) other same fuel = rw (e, same, ◌>>=◌, continue)
  before_id-final (suc k) id x (w ∷ ws) z post (e, c) other same fuel =
      rw (e, other w (ground arith), ◌>>=◌, continue)
        (before_id-final k id w ws z post c (λ i h. other i (ground arith)) same (omega arith))
