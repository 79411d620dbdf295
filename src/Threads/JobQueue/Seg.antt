-- ===== src/Threads/JobQueue/Seg.antt =====
-- Doubly linked segments of the heap of lock_test4.c.
use unix_advanced_programing.Prelude.{ℕ, ◌≡◌, refl, sym, ◌≢◌, some, List, [], ◌∷◌, ◌++◌, arith}
use unix_advanced_programing.Threads.JobQueue.{
  Ptr, null, Job, job, Heap, write, Queue, load, set_next, set_prev, store,
}

-- The jobs of a queue in order: address and thread id.
abbrev pub Jobs : Type 0
Jobs = List (Ptr × ℕ)

-- `a` is the address of none of the jobs.
abbrev pub Out : Ptr → Jobs → Type 0
Out a [] = Unit {0}
Out a ((x, i) ∷ xs) = (a ≢ x) × Out a xs

abbrev pub Distinct : Jobs → Type 0
Distinct [] = Unit {0}
Distinct ((x, i) ∷ xs) = Out x xs × Distinct xs

-- From `p`, behind `prev`, the links lead through the jobs both ways; `last` is the job before `stop`.
abbrev pub Seg : Heap → Ptr → Ptr → Jobs → Ptr → Ptr → Type 0
Seg h prev p [] last stop = (p ≡ stop) × (prev ≡ last)
Seg h prev p ((x, i) ∷ xs) last stop =
    (p ≡ x) × (x ≢ null) × (n : Ptr) × (h x ≡ some (job n prev i)) × Seg h x n xs last stop

-- Only the way forward.
abbrev pub Forward : Heap → Ptr → Jobs → Type 0
Forward h p [] = p ≡ null
Forward h p ((x, i) ∷ xs) =
    (p ≡ x) × (x ≢ null) × (n : Ptr) × (b : Ptr) × (h x ≡ some (job n b i)) × Forward h n xs

pub record IsQueue (q : Queue) (xs : Jobs) : Type 0 where
  pub chain : Seg q.heap null q.q_head xs q.q_tail null
  pub distinct : Distinct xs

pub Seg-Forward :
    (h : Heap) (prev p last : Ptr) (xs : Jobs) → Seg h prev p xs last null → Forward h p xs
Seg-Forward h prev p last [] s = s.0
Seg-Forward h prev p last ((x, i) ∷ xs) (at, ne, n, is, s) =
    (at, ne, n, prev, is, Seg-Forward h x n last xs s)

pub Seg-write :
    (h : Heap) (prev p last stop : Ptr) (a : Ptr) (j : Job) (xs : Jobs)
    → Out a xs
    → Seg h prev p xs last stop
    → Seg (write h a j) prev p xs last stop
unfolding write
Seg-write h prev p last stop a j [] out s = s
Seg-write h prev p last stop a j ((x, i) ∷ xs) out (at, ne, n, is, s) =
    (at, ne, n, ground arith, Seg-write h x n last stop a j xs out.1 s)

pub Seg-split :
    (h : Heap) (prev p last stop : Ptr) (xs ys : Jobs)
    → Seg h prev p (xs ++ ys) last stop
    → (a b : Ptr) × Seg h prev p xs a b × Seg h a b ys last stop
Seg-split h prev p last stop [] ys s = (prev, p, (refl, refl), s)
Seg-split h prev p last stop ((x, i) ∷ xs) ys (at, ne, n, is, s) =
    let (a, b, t, u) = Seg-split h x n last stop xs ys s in (a, b, (at, ne, n, is, t), u)

pub Out-split : (a : Ptr) (xs ys : Jobs) → Out a (xs ++ ys) → Out a xs × Out a ys
Out-split a [] ys o = (tt, o)
Out-split a ((x, i) ∷ xs) ys o = let (p, q) = Out-split a xs ys o.1 in ((o.0, p), q)

-- A job among distinct ones is none of those before it or behind it.
pub Distinct-mid :
    (xs : Jobs) (x i : ℕ) (ys : Jobs)
    → Distinct (xs ++ (x, i) ∷ ys)
    → Out x xs × Out x ys × Distinct xs × Distinct ys
Distinct-mid [] x i ys d = (tt, d.0, tt, d.1)
Distinct-mid ((y, j) ∷ xs) x i ys (o, d) =
    let (p, q, r, s) = Distinct-mid xs x i ys d in
    let (u, v) = Out-split y xs ((x, i) ∷ ys) o in (((λ e. v.0 (sym e)), p), q, (u, r), s)

-- The last job of a segment that holds one is among its jobs, and so is the first.
pub Seg-last :
    (h : Heap) (prev p last stop : Ptr) (a x i : ℕ) (xs : Jobs)
    → Seg h prev p ((x, i) ∷ xs) last stop
    → Out a ((x, i) ∷ xs)
    → a ≢ last
Seg-last h prev p last stop a x i [] (at, ne, n, is, s) out = ground arith
Seg-last h prev p last stop a x i ((y, j) ∷ xs) (at, ne, n, is, s) out =
    Seg-last h x n last stop a y j xs s out.1

-- To give the last job of a segment another successor leads the segment there.
pub Seg-relink :
    (h : Heap) (prev p last stop stop' : Ptr) (x i : ℕ) (xs : Jobs)
    → Distinct ((x, i) ∷ xs)
    → Seg h prev p ((x, i) ∷ xs) last stop
    → (b k : ℕ) × (last ≢ null)
      × (h last ≡ some (job stop b k))
      × Seg (write h last (job stop' b k)) prev p ((x, i) ∷ xs) last stop'
unfolding write
Seg-relink h prev p last stop stop' x i [] d (at, ne, n, is, (end, l)) =
    (prev, i, ground arith, ground arith, (at, ne, stop', ground arith, (refl, l)))
Seg-relink h prev p last stop stop' x i ((y, j) ∷ xs) d (at, ne, n, is, s) =
    let (b, k, lne, held, t) = Seg-relink h x n last stop stop' y j xs d.1 s in
    let apart = Seg-last h x n last stop x y j xs s d.0 in
    (b, k, lne, held, (at, ne, n, ground arith, t))

-- Whatever the way back becomes, the way forward stays.
abbrev pub KeepsWay : Heap → Heap → Type 0
KeepsWay h h' = (x n b i : ℕ) → h x ≡ some (job n b i) → (b' : ℕ) × (h' x ≡ some (job n b' i))

pub Forward-KeepsWay :
    (h h' : Heap) (p : Ptr) (xs : Jobs) → KeepsWay h h' → Forward h p xs → Forward h' p xs
Forward-KeepsWay h h' p [] same way = way
Forward-KeepsWay h h' p ((x, i) ∷ xs) same (at, ne, n, b, is, way) =
    let (b', is') = same x n b i is in (at, ne, n, b', is', Forward-KeepsWay h h' n xs same way)

module _ (q : Queue) (p n b i : ℕ) (ne : p ≢ null) (is : q.heap p ≡ some (job n b i)) where
  pub load-job : load p q ≡ some (job n b i)
  unfolding load
  load-job = ground arith

  pub set_next-job : (v : Ptr) → set_next p v q ≡ some (store p (job v b i) q)
  unfolding set_next
  set_next-job v = rw load-job

  pub set_prev-job : (v : Ptr) → set_prev p v q ≡ some (store p (job n v i) q)
  unfolding set_prev
  set_prev-job v = rw load-job
