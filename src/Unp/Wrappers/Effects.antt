-- ===== src/Unp/Wrappers/Effects.antt =====
-- A call with its printed messages, and the shapes of wrapper that util/unp.c has.
use Prim.Native.String.{String}
use unix_advanced_programing.Prelude.{Bool, Option, none, some, List, [], ◌∷◌, ◌++◌, if◌then◌else◌}
use unix_advanced_programing.Prelude.Int.{ℤ, is_neg, to_int}
use unix_advanced_programing.Posix.Printf.{Arg, Line, line}

-- The world outside, and the messages printed so far (without the text for `errno`).
pub record Console (W : Type 0) : Type 0 where
  pub world : W
  pub printed : List Line

-- A call, from its world to its result and the world behind it.
abbrev pub Call : Type 0 → Type 0
Call W = W → ℤ × W

unfoldable pub printf : {W : Type 0} → String → List Arg → Console W → Console W
printf format args s = record s { printed = s.printed ++ line format args ∷ [] }

-- `err_sys(format, ...)`: it prints, and the program goes on. (`strerror(errno)` is left out.)
unfoldable pub err_sys : {W : Type 0} → String → Console W → Console W
unfolding printf
err_sys msg = printf msg []

unfoldable pub perform : {W A : Type 0} → (W → A × W) → Console W → A × Console W
perform call s = let (a, w) = call s.world in (a, record s { world = w })

-- `if (bad(n = call)) err_sys(msg); return n;`
unfoldable pub checked_by : {W : Type 0} → (ℤ → Bool) → String → Call W → Console W → ℤ × Console W
unfolding perform err_sys
checked_by bad msg call s =
    let (n, s') = perform call s in (n, if bad n then err_sys msg s' else s')

unfoldable pub checked : {W : Type 0} → String → Call W → Console W → ℤ × Console W
unfolding checked_by
checked = checked_by is_neg

-- The same with `int n = call`, for a call that returns `ssize_t`.
unfoldable pub narrowed : {W : Type 0} → String → Call W → Console W → ℤ × Console W
unfolding checked
narrowed msg call = checked msg (λ w. let (n, w') = call w in (to_int n, w'))

-- `if ((p = call) == NULL) err_sys(msg); return p;`
unfoldable pub non_null :
    {W A : Type 0} → String → (W → Option A × W) → Console W → Option A × Console W
unfolding perform err_sys
non_null msg call s =
    let (p, s') = perform call s in (p, elim p [ none ↦ err_sys msg s' | some a ↦ s' ])
