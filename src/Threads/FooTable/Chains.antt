-- ===== src/Threads/FooTable/Chains.antt =====
-- The chains of Threads/FooTable.antt under its operations.
use unix_advanced_programing.Prelude.{
  ℕ, true, false, none, some, List, [], ◌∷◌, ◌++◌, ◌==◌, if◌then◌else◌, ◌≡◌, ◌≢◌, refl, ap, ◌∙◌,
  arith, inl, inr, ◌⊎◌, Bool-cases,
}
use unix_advanced_programing.Prelude.Int.{ℤ, pos, pred_ℤ, is_zero}
use unix_advanced_programing.Threads.FooTable.{
  Table, hash, same_id, put, lock, unlock, foo_hold, find_loop, foo_find, unlink, count_down,
  unlink_at, remove, foo_release,
}

-- `fp` is not on the list.
abbrev pub IsOff : ℕ → List ℕ → Type 0
IsOff fp [] = Unit
IsOff fp (x ∷ xs) = (x ≢ fp) × IsOff fp xs

self_eq : (n : ℕ) → (n == n) ≡ true
self_eq n = ground arith

unlink_first :
    (before after : List ℕ) (fp : ℕ)
    → IsOff fp before
    → unlink fp (before ++ fp ∷ after) ≡ some (before ++ after)
unfolding unlink
unlink_first [] after fp off = rw (self_eq fp) refl
unlink_first (x ∷ before) after fp (ne, off) =
    let e : (x == fp) ≡ false = ground arith in rw (e, unlink_first before after fp off) refl

-- An object of the chain
abbrev pub HasId : Table → ℤ → List ℕ → Type 0
HasId t id [] = ⊥
HasId t id (fp ∷ rest) = (same_id (t.objects fp).f_id id ≡ true) ⊎ HasId t id rest

find_loop_stuck :
    (t : Table) (id : ℤ) (chain : List ℕ)
    → t.hashlock ≡ true
    → HasId t id chain
    → find_loop id chain t ≡ none
unfolding find_loop foo_hold lock
find_loop_stuck t id [] held has = elim has [ ]
find_loop_stuck t id (fp ∷ rest) held (inl e) = rw (e, held) refl
find_loop_stuck t id (fp ∷ rest) held (inr has) =
    elim (Bool-cases (same_id (t.objects fp).f_id id)) [
      | inl e ↦ rw (e, held) refl
      | inr e ↦ rw (e, find_loop_stuck t id rest held has) refl
    ]

-- An unlocked table: a search for an id that is in its chain never returns.
pub foo_find_deadlock :
    (t : Table) (id : ℤ) → t.hashlock ≡ false → HasId t id (t.fh (hash id)) → foo_find id t ≡ none
unfolding foo_find lock
foo_find_deadlock t id free has =
    rw (free, find_loop_stuck (record t { hashlock = true }) id (t.fh (hash id)) refl has) refl

unlink_at_first :
    (t : Table) (fp idx : ℕ) (before after : List ℕ)
    → t.fh idx ≡ before ++ fp ∷ after
    → IsOff fp before
    → unlink_at fp idx t
      ≡ some
          (record t { fh = put idx (before ++ after) t.fh; freed = fp ∷ t.freed; hashlock = false })
unfolding unlink_at unlock
unlink_at_first t fp idx before after chain off =
    rw (ap (unlink fp) chain ∙ unlink_first before after fp off, unlink_at) refl

remove_first :
    (t : Table) (fp : ℕ) (id : ℤ) (before after : List ℕ)
    → (t.objects fp).f_id ≡ id
    → t.fh (hash id) ≡ before ++ fp ∷ after
    → IsOff fp before
    → remove fp t
      ≡ some (record t {
        fh = put (hash id) (before ++ after) t.fh;
        freed = fp ∷ t.freed;
        hashlock = false;
      })
unfolding remove
remove_first t fp id before after same chain off =
    ap (λ i. unlink_at fp (hash i) t) same ∙ unlink_at_first t fp (hash id) before after chain off

-- The last release of an object that is on its chain takes it off that chain, once, leaves every other chain as it is, frees
-- the object and leaves the table unlocked.
pub foo_release_last :
    (t : Table) (fp : ℕ) (before after : List ℕ)
    → t.hashlock ≡ false
    → (t.objects fp).f_count ≡ pos 1
    → t.fh (hash (t.objects fp).f_id) ≡ before ++ fp ∷ after
    → IsOff fp before
    → (t' : Table) × (foo_release fp t ≡ some t')
      × ((i : ℕ) → t'.fh i ≡ (if i == hash (t.objects fp).f_id then before ++ after else t.fh i))
      × (t'.freed ≡ fp ∷ t.freed)
      × (t'.hashlock ≡ false)
unfolding foo_release lock count_down
foo_release_last t fp before after free one chain off = (
  record {
    fh = put (hash (t.objects fp).f_id) (before ++ after) t.fh;
    objects = (count_down fp t).objects;
    freed = fp ∷ t.freed;
    hashlock = false;
  },
  rw (free, self_eq fp, ap (λ c. is_zero (pred_ℤ c)) one)
      (remove_first (record (count_down fp t) { hashlock = true }) fp (t.objects fp).f_id before
        after (rw (self_eq fp) refl) chain off),
  λ i. refl,
  refl,
  refl,
)
