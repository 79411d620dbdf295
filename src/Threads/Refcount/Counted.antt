-- ===== src/Threads/Refcount/Counted.antt =====
-- Threads that share the object of Threads/Refcount.antt.
use unix_advanced_programing.Prelude.{ℕ, suc, true, Option, none, some, ◌==◌, ◌≡◌}
use unix_advanced_programing.Prelude.Int.{pos}
use unix_advanced_programing.Threads.Refcount.{Foo, foo_alloc, foo_hold, foo_release}

-- The object, and the number of references that the threads own.
pub record Sharing : Type 0 where
  pub foo : Foo
  pub owned : ℕ

-- A thread takes a further reference through one that is owned, or gives one up.
pub data Step : Sharing → Sharing → Type 0 where
  hold :
      (fp : Foo) (n : ℕ)
      → Step
          (record { foo = fp; owned = suc n })
          (record { foo = foo_hold fp; owned = suc (suc n) })
  release :
      (fp : Foo) (n : ℕ)
      → Step (record { foo = fp; owned = suc n }) (record { foo = foo_release fp; owned = n })

-- The states that follow an allocation by one thread.
pub data Reached : Sharing → Type 0 where
  allocated :
      (id : ℕ) (fp : Foo) → foo_alloc true 0 id ≡ some fp → Reached (record { foo = fp; owned = 1 })
  stepped : (s t : Sharing) → Reached s → Step s t → Reached t

-- The count is the number of references, and the object is freed exactly when there is none.
abbrev pub IsCounted : Sharing → Type 0
IsCounted s = (s.foo.f_count ≡ pos s.owned) × (s.foo.freed ≡ (s.owned == 0))

AllocCounted : Option Foo → Type 0
AllocCounted none = ⊥
AllocCounted (some fp) = IsCounted (record { foo = fp; owned = 1 })
