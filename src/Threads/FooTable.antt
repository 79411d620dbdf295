-- ===== src/Threads/FooTable.antt =====
-- The hash table of counted objects in UnixAdvancedProgramming/ch7_12_process/lock_test3.c. An object is its
-- address, and its `f_lock`, which only `foo_alloc` takes, before anyone else can find the object, is left out;
-- the chain of a bucket, linked by `f_next` and ended by NULL, is the list of its addresses.
-- `none` for a result is a thread that never returns: it locks `hashlock`, a plain mutex, while it holds it,
-- or it follows NULL.
pub mod Chains
use unix_advanced_programing.Prelude.{
  ◌>>=◌, ℕ, ◌-◌, ◌%◌, ◌^◌, Bool, true, false, not, Option, none, some, List, [], ◌∷◌, ◌==◌,
  if◌then◌else◌,
}
use unix_advanced_programing.Prelude.Int.{ℤ, pos, negsuc, suc_ℤ, pred_ℤ, is_zero}

pub record Foo : Type 0 where
  pub f_count : ℤ
  pub f_id : ℤ

pub record Table : Type 0 where
  pub fh : ℕ → List ℕ
  pub objects : ℕ → Foo
  pub freed : List ℕ
  pub hashlock : Bool

abbrev pub nhash : ℕ
nhash = 29

-- `HASH(id)`, with the `int` taken to `unsigned long`.
unfoldable pub hash : ℤ → ℕ
hash (pos n) = n % nhash
hash (negsuc n) = (2 ^ 64 - 1 - n) % nhash

abbrev pub same_id : ℤ → ℤ → Bool
same_id (pos a) (pos b) = a == b
same_id (negsuc a) (negsuc b) = a == b
same_id (pos a) (negsuc b) = false
same_id (negsuc a) (pos b) = false

-- An array or a memory with one place changed.
abbrev pub put : {A : Type 0} → ℕ → A → (ℕ → A) → ℕ → A
put i a f j = if j == i then a else f j

unfoldable pub lock : Table → Option Table
lock t = if t.hashlock then none else some (record t { hashlock = true })

unfoldable pub unlock : Table → Table
unlock t = record t { hashlock = false }

-- `foo_alloc` behind its tests, on the object at `fp` that `malloc` gave.
unfoldable pub insert : ℕ → ℤ → Table → Table
unfolding unlock
insert fp id t = let idx = hash id in unlock (record t { fh = put idx (fp ∷ t.fh idx) t.fh })

-- `malloc` gives an address or NULL, `pthread_mutex_init` an error number; the result is `fp`.
unfoldable pub foo_alloc : Option ℕ → (init : ℕ) → ℤ → Table → Option (Option ℕ × Table)
foo_alloc none init id t = some (none, t)
foo_alloc (some fp) init id t =
    let t = record t { objects = put fp (record { f_count = pos 1; f_id = id }) t.objects } in
    if init == 0
    then elim (lock t) [ none ↦ none | some t ↦ some (some fp, insert fp id t) ]
    else some (none, record t { freed = fp ∷ t.freed })

-- `foo_hold`, on the object at `fp`.
unfoldable pub count_up : ℕ → Table → Table
count_up fp t = record t {
  objects = put fp (record (t.objects fp) { f_count = suc_ℤ (t.objects fp).f_count }) t.objects;
}

unfoldable pub foo_hold : ℕ → Table → Option Table
unfolding count_up unlock
foo_hold fp t = elim (lock t) [ none ↦ none | some t ↦ some (unlock (count_up fp t)) ]

-- The loop of `foo_find`, which holds `hashlock`. (`foo_hold` is given `&fp->f_lock` for `fp`, but waits for
-- the lock before it looks at it.)
unfoldable pub find_loop : ℤ → List ℕ → Table → Option (Option ℕ × Table)
find_loop id [] t = some (none, t)
find_loop id (fp ∷ f_next) t =
    let rest = find_loop id f_next t in
    let held = foo_hold fp t in
    if same_id (t.objects fp).f_id id
    then elim held [ none ↦ none | some t ↦ some (some fp, t) ]
    else rest

unfoldable pub foo_find : ℤ → Table → Option (Option ℕ × Table)
unfolding unlock
foo_find id t = do t ← lock t; (fp, t) ← find_loop id (t.fh (hash id)) t; some (fp, unlock t)

-- The chain without `fp`: from its first entry, or behind the entry whose `f_next` it is.
unfoldable pub unlink : ℕ → List ℕ → Option (List ℕ)
unlink fp [] = none
unlink fp (tfp ∷ f_next) =
    let rest = unlink fp f_next in
    if tfp == fp then some f_next else elim rest [ none ↦ none | some f_next ↦ some (tfp ∷ f_next) ]

unfoldable pub count_down : ℕ → Table → Table
count_down fp t = record t {
  objects = put fp (record (t.objects fp) { f_count = pred_ℤ (t.objects fp).f_count }) t.objects;
}

-- The last release, which holds `hashlock`.
unfoldable pub unlink_at : ℕ → (idx : ℕ) → Table → Option Table
unfolding unlock unlink
unlink_at fp idx t = elim (unlink fp (t.fh idx)) [
  | none ↦ none
  | some chain ↦
      some (record (unlock (record t { fh = put idx chain t.fh })) { freed = fp ∷ t.freed })
]

unfoldable pub remove : ℕ → Table → Option Table
unfolding unlink_at
remove fp t = unlink_at fp (hash (t.objects fp).f_id) t

unfoldable pub foo_release : ℕ → Table → Option Table
unfolding count_down unlock
foo_release fp t = do
  t ← lock t
  let t = count_down fp t
  let last = remove fp t
  if is_zero (t.objects fp).f_count then last else some (unlock t)
