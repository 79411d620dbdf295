-- ===== src/Files/AioCopy/Workers.antt =====
-- The workers of aio_test1.c as a table: sums over it, and the blocks that it holds.
use native.Mathlib.Nat.{sub-zero, suc-sub-suc}
use unix_advanced_programing.Prelude.{
  ℕ, zero, suc, ◌+◌, ◌-◌, ◌≤◌, ◌<◌, ◌≡◌, refl, ap, ◌∙◌, ◌⊎◌, inl, inr, Bool, true, false,
  Bool-cases, none, some, List, [], ◌∷◌, map, arith, length, take, drop, replicate, get_elem?, set,
  ◌==◌, ==_iff, get_elem?-set_self, get_elem?-set_ne, min, length-map, length-take, length-drop,
  take-nil,
}
use unix_advanced_programing.Files.AioCopy.{Op, unused, read_pending, write_pending, Worker}

abbrev pub is_busy : Op → Bool
is_busy unused = false
is_busy read_pending = true
is_busy write_pending = true

abbrev pub busy_one : Worker → ℕ
busy_one b = elim (is_busy b.op) [ true ↦ 1 | false ↦ 0 ]

-- The turns that a worker still needs for its block.
abbrev pub op_weight : Op → ℕ
op_weight unused = 0
op_weight read_pending = 2
op_weight write_pending = 1

abbrev pub weight : Worker → ℕ
weight b = op_weight b.op

pub sum_by : (Worker → ℕ) → List Worker → ℕ
sum_by f [] = 0
sum_by f (b ∷ bs) = f b + sum_by f bs

pub sum_by-set :
    (f : Worker → ℕ) (i : ℕ) (b b' : Worker) (bs : List Worker)
    → get_elem? bs i ≡ some b
    → sum_by f (set bs i b') + f b ≡ sum_by f bs + f b'
unfolding sum_by
sum_by-set f i b b' [] e = cc
sum_by-set f zero b b' (x ∷ bs) e = let same : x ≡ b = cc in rw same (omega arith)
sum_by-set f (suc i) b b' (x ∷ bs) e = omega (arith, sum_by-set f i b b' bs e)

pub sum_by-zero :
    (f : Worker → ℕ) (bs : List Worker)
    → ((i : ℕ) (b : Worker) → get_elem? bs i ≡ some b → f b ≡ 0)
    → sum_by f bs ≡ 0
unfolding sum_by
sum_by-zero f [] h = refl
sum_by-zero f (b ∷ bs) h = omega (arith, h 0 b refl, sum_by-zero f bs (λ i x e. h (suc i) x e))

pub sum_by-ge :
    (f : Worker → ℕ) (i : ℕ) (b : Worker) (bs : List Worker)
    → get_elem? bs i ≡ some b
    → f b ≤ sum_by f bs
unfolding sum_by
sum_by-ge f i b [] e = cc
sum_by-ge f zero b (x ∷ bs) e = let same : x ≡ b = cc in rw same (omega arith)
sum_by-ge f (suc i) b (x ∷ bs) e = omega (arith, sum_by-ge f i b bs e)

pub get_elem?-replicate : (n i : ℕ) (a b : Worker) → get_elem? (replicate n a) i ≡ some b → a ≡ b
get_elem?-replicate zero i a b e = cc
get_elem?-replicate (suc n) zero a b e = cc
get_elem?-replicate (suc n) (suc i) a b e = get_elem?-replicate n i a b e

pub sum_by-replicate :
    (f : Worker → ℕ) (n : ℕ) (a : Worker) → f a ≡ 0 → sum_by f (replicate n a) ≡ 0
unfolding sum_by
sum_by-replicate f zero a h = refl
sum_by-replicate f (suc n) a h = omega (arith, h, sum_by-replicate f n a h)

pub get_elem?-lt : (i : ℕ) (b : Worker) (bs : List Worker) → get_elem? bs i ≡ some b → i < length bs
get_elem?-lt i b [] e = cc
get_elem?-lt zero b (x ∷ bs) e = omega arith
get_elem?-lt (suc i) b (x ∷ bs) e = omega (arith, get_elem?-lt i b bs e)

-- A worker is at the block in which the position `p` lies.
abbrev pub Held : ℕ → List Worker → Type 0
Held p bs =
    (j : ℕ) × (b : Worker) × (get_elem? bs j ≡ some b)
    × (is_busy b.op ≡ true)
    × (b.aio_offset ≤ p)
    × (p < b.aio_offset + 256)

pub Held-new :
    (p i : ℕ) (b b' : Worker) (bs : List Worker)
    → get_elem? bs i ≡ some b
    → is_busy b'.op ≡ true
    → b'.aio_offset ≤ p
    → p < b'.aio_offset + 256
    → Held p (set bs i b')
Held-new p i b b' bs e busy lo hi =
    (i, b', get_elem?-set_self bs i b' (get_elem?-lt i b bs e), busy, lo, hi)

-- It is the worker `i`, or another one, which is at its block whatever `i` does.
pub Held-split :
    (p i : ℕ) (b b' : Worker) (bs : List Worker)
    → get_elem? bs i ≡ some b
    → Held p bs
    → ((is_busy b.op ≡ true) × (b.aio_offset ≤ p) × (p < b.aio_offset + 256)) ⊎ Held p (set bs i b')
Held-split p i b b' bs e (j, x, g, busy, lo, hi) = elim (Bool-cases (i == j)) [
  | inl same ↦
      let at : i ≡ j = (==_iff i j).0 same in
      let is : x ≡ b = cc in inl (rw is at busy, rw is at lo, rw is at hi)
  | inr other ↦
      inr (j, x, get_elem?-set_ne bs b' (λ at. absurd (differs at other)) ∙ g, busy, lo, hi)
]
  where
    differs : i ≡ j → (i == j) ≡ false → ⊥
    differs at other = ground arith

module _ (change : ℕ → ℕ) where
  prefix_elem :
      (n p : ℕ) (l : List ℕ)
      → p < length (map change (take n l))
      → get_elem? (map change (take n l)) p ≡ get_elem? (map change l) p
  prefix_elem zero p l h = elim h [ ]
  prefix_elem (suc n) p [] h = refl
  prefix_elem (suc n) zero (x ∷ l) h = refl
  prefix_elem (suc n) (suc p) (x ∷ l) h = prefix_elem n p l (omega arith)

  -- A byte of a block, and the byte of the file.
  pub block_elem :
      (n o p : ℕ) (l : List ℕ)
      → o ≤ p
      → p < o + length (map change (take n (drop o l)))
      → get_elem? (map change (take n (drop o l))) (p - o) ≡ get_elem? (map change l) p
  block_elem n zero p l le lt = rw sub-zero (prefix_elem n p l (omega arith))
  block_elem n (suc o) p [] le lt =
      absurd (omega (arith, ap (λ (xs : List ℕ). length (map change xs)) (take-nil {A = ℕ} n)))
  block_elem n (suc o) zero (x ∷ l) le lt = absurd (omega arith)
  block_elem n (suc o) (suc p) (x ∷ l) le lt =
      rw suc-sub-suc (block_elem n o p l (omega arith) (omega arith))

  pub length-block :
      (n o : ℕ) (l : List ℕ) → length (map change (take n (drop o l))) ≡ min n (length l - o)
  length-block n o l =
      omega
        (arith, length-map (take n (drop o l)) change, length-take n (drop o l), length-drop o l)

  pub get_elem?_beyond : (p : ℕ) (l : List ℕ) → length l ≤ p → get_elem? (map change l) p ≡ none
  get_elem?_beyond p [] h = refl
  get_elem?_beyond zero (x ∷ l) h = absurd (omega arith)
  get_elem?_beyond (suc p) (x ∷ l) h = get_elem?_beyond p l (omega arith)
