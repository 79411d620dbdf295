-- ===== src/Threads/Examples/Objects.antt =====
-- Counted objects, shared by two threads and in chains.
use unix_advanced_programing.Prelude.{
  ℕ, true, false, some, List, [], ◌∷◌, ◌≡◌, refl, ◌==◌, if◌then◌else◌, arith,
}
use unix_advanced_programing.Prelude.Int.{pos}
use unix_advanced_programing.Threads.Refcount.{Foo, foo_hold, foo_release}
use unix_advanced_programing.Threads.Refcount.Counted.{Sharing}
use unix_advanced_programing.Threads.FooTable.{Table, hash, foo_find}
use unix_advanced_programing.Threads.FooTable
use unix_advanced_programing.Threads.FooTable.Chains.{foo_release_last}

-- Two objects in the chain of the same bucket: the ids are 3 and 32.
abbrev objects : ℕ → FooTable.Foo
objects p = record { f_count = pos 1; f_id = if p == 100 then pos 3 else pos 32 }

abbrev chains : ℕ → List ℕ
chains i = if i == hash (pos 3) then 200 ∷ 100 ∷ [] else []

abbrev table : Table
table = record { fh = chains; objects = objects; freed = []; hashlock = false }

chain_of_three : chains (hash (pos 3)) ≡ 200 ∷ 100 ∷ []
chain_of_three = let e : (hash (pos 3) == hash (pos 3)) ≡ true = ground arith in rw e refl

foo_release_last_example :
    (t' : Table) × (FooTable.foo_release 100 table ≡ some t')
    × ((i : ℕ) → t'.fh i ≡ (if i == hash (pos 3) then 200 ∷ [] else chains i))
    × (t'.freed ≡ 100 ∷ [])
    × (t'.hashlock ≡ false)
foo_release_last_example =
    foo_release_last table 100 (200 ∷ []) [] refl refl chain_of_three
      ((λ e. absurd (omega (arith, e))), tt)

-- The object of one thread, that another takes and the first gives up, and then the other.
abbrev object : Foo
object = record { f_count = pos 1; f_id = 7; freed = false }

abbrev ended : Sharing
ended = record { foo = foo_release (foo_release (foo_hold object)); owned = 0 }
