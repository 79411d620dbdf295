-- ===== src/Signals/Tell/Exchange.antt =====
-- One exchange of Signals/Tell.antt: the parent waits for its child and then tells it to go on.
use unix_advanced_programing.Prelude.{
  ℕ, ◌≡◌, refl, sym, subst, ◌⊎◌, inl, inr, Bool, true, false, some, List, [], ◌∷◌, arith,
}
use unix_advanced_programing.Signals.Tell.{
  Action, tell_parent, wait_parent, tell_child, wait_child, Pc, ready, testing, calling, suspended,
  Process, tell_wait, arrived, kill, restored, wait_done, begun, turn_from, turn, signal_to, Step,
  parent_turn, child_turn, Reached, here, next,
}
use unix_advanced_programing.Signals.Tell.First.{Heard, started, Reached-Hearing}

abbrev pub parent_program : List Action
parent_program = wait_child ∷ tell_child ∷ []

abbrev pub child_program : List Action
child_program = tell_parent ∷ wait_parent ∷ []

abbrev Busy : Pc → Type 0
Busy ready = ⊥
Busy other = Unit

-- What is left of a program of two actions that ends in a wait, or of one that begins with it, at the
-- places that it passes.
abbrev IsChild : Process → Type 0
IsChild p =
    ((p.todo ≡ child_program) × (p.at ≡ ready) × (p.told ≡ 0) × (p.waited ≡ 0))
    ⊎ ((p.todo ≡ wait_parent ∷ []) × (p.at ≡ ready) × (p.told ≡ 1) × (p.waited ≡ 0))
    ⊎ ((p.todo ≡ []) × Busy p.at × (p.told ≡ 1) × (p.waited ≡ 0))
    ⊎ ((p.todo ≡ []) × (p.at ≡ ready) × (p.told ≡ 1) × (p.waited ≡ 1))

abbrev IsParent : Process → Type 0
IsParent p =
    ((p.todo ≡ parent_program) × (p.at ≡ ready) × (p.told ≡ 0) × (p.waited ≡ 0))
    ⊎ ((p.todo ≡ tell_child ∷ []) × Busy p.at × (p.told ≡ 0) × (p.waited ≡ 0))
    ⊎ ((p.todo ≡ tell_child ∷ []) × (p.at ≡ ready) × (p.told ≡ 0) × (p.waited ≡ 1))
    ⊎ ((p.todo ≡ []) × (p.at ≡ ready) × (p.told ≡ 1) × (p.waited ≡ 1))

abbrev standing : Pc → Process → Process
standing q p = record p { at = q }

act-IsChild :
    (q : Pc) (p p' : Process) (sent : Bool)
    → turn_from q (standing q p) ≡ some (p', sent)
    → IsChild (standing q p)
    → IsChild p'
unfolding turn_from begun wait_done restored
act-IsChild ready p p' sent e (inl h) = ground arith
act-IsChild ready p p' sent e (inr (inl h)) = ground arith
act-IsChild ready p p' sent e (inr (inr (inl h))) = ground arith
act-IsChild ready p p' sent e (inr (inr (inr h))) = ground arith
act-IsChild (testing wait) p p' sent e h = ground arith
act-IsChild (calling wait) p p' sent e h = ground arith
act-IsChild (suspended wait) p p' sent e h = cc

act-IsParent :
    (q : Pc) (p p' : Process) (sent : Bool)
    → turn_from q (standing q p) ≡ some (p', sent)
    → IsParent (standing q p)
    → IsParent p'
unfolding turn_from begun wait_done restored
act-IsParent ready p p' sent e (inl h) = ground arith
act-IsParent ready p p' sent e (inr (inl h)) = ground arith
act-IsParent ready p p' sent e (inr (inr (inl h))) = ground arith
act-IsParent ready p p' sent e (inr (inr (inr h))) = ground arith
act-IsParent (testing wait) p p' sent e h = ground arith
act-IsParent (calling wait) p p' sent e h = ground arith
act-IsParent (suspended wait) p p' sent e h = cc

kill-IsChild : (q : Pc) (p : Process) → IsChild (standing q p) → IsChild (arrived q (standing q p))
unfolding arrived
kill-IsChild ready p h = ground arith
kill-IsChild (testing wait) p h = ground arith
kill-IsChild (calling wait) p h = ground arith
kill-IsChild (suspended wait) p h = ground arith

kill-IsParent :
    (q : Pc) (p : Process) → IsParent (standing q p) → IsParent (arrived q (standing q p))
unfolding arrived
kill-IsParent ready p h = ground arith
kill-IsParent (testing wait) p h = ground arith
kill-IsParent (calling wait) p h = ground arith
kill-IsParent (suspended wait) p h = ground arith

signal_to-IsChild : (sent : Bool) (p : Process) → IsChild p → IsChild (signal_to sent p)
unfolding kill
signal_to-IsChild true p h = kill-IsChild p.at p h
signal_to-IsChild false p h = h

signal_to-IsParent : (sent : Bool) (p : Process) → IsParent p → IsParent (signal_to sent p)
unfolding kill
signal_to-IsParent true p h = kill-IsParent p.at p h
signal_to-IsParent false p h = h

abbrev InExchange : Process × Process → Type 0
InExchange (p, c) = IsParent p × IsChild c

Step-InExchange : (s t : Process × Process) → Step s t → InExchange s → InExchange t
unfolding turn
Step-InExchange _ _ (parent_turn p c p' sent e) (hp, hc) =
    (act-IsParent p.at p p' sent e hp, signal_to-IsChild sent c hc)
Step-InExchange _ _ (child_turn p c c' sent e) (hp, hc) =
    (signal_to-IsParent sent p hp, act-IsChild c.at c c' sent e hc)

Reached-InExchange :
    (old_p old_c : Bool) (s : Process × Process)
    → Reached (started old_p old_c parent_program child_program) s
    → InExchange s
unfolding tell_wait
Reached-InExchange old_p old_c _ here = (inl (refl, refl, refl, refl), inl (refl, refl, refl, refl))
Reached-InExchange old_p old_c _ (next t u r st) =
    Step-InExchange t u st (Reached-InExchange old_p old_c t r)

abbrev Moves : Process → Type 0
Moves p = (p' : Process) × (sent : Bool) × (turn p ≡ some (p', sent))

begins :
    (a : Action) (todo : List Action) (p : Process)
    → (p' : Process) × (sent : Bool) × (begun (a ∷ todo) p ≡ some (p', sent))
unfolding begun
begins tell_parent todo p = (_, _, refl)
begins wait_parent todo p = (_, _, refl)
begins tell_child todo p = (_, _, refl)
begins wait_child todo p = (_, _, refl)

starts :
    (a : Action) (todo : List Action) (p : Process) → p.todo ≡ a ∷ todo → Moves (standing ready p)
unfolding turn turn_from
starts a todo p e =
    let (p', sent, is) = begins a todo (standing ready p) in
    (p', sent, subst (λ l. begun l (standing ready p) ≡ some (p', sent)) (sym e) is)

-- A process at the end of its program, behind its wait.
abbrev pub Finished : Process → Type 0
Finished p = (p.todo ≡ []) × (p.at ≡ ready) × (p.told ≡ 1) × (p.waited ≡ 1)

-- A process moves, or sleeps without having been told, or has finished.
IsParent-Moves :
    (q : Pc) (p : Process) (told : ℕ)
    → Heard (standing q p) told
    → IsParent (standing q p)
    → Moves (standing q p) ⊎ ((told ≡ 0) × (p.told ≡ 0)) ⊎ Finished (standing q p)
unfolding turn turn_from begun
IsParent-Moves ready p told h (inl (todo, at, n, m)) = inl (starts _ _ p todo)
IsParent-Moves ready p told h (inr (inl (todo, at, n, m))) = absurd at
IsParent-Moves ready p told h (inr (inr (inl (todo, at, n, m)))) = inl (starts _ _ p todo)
IsParent-Moves ready p told h (inr (inr (inr done))) = inr (inr done)
IsParent-Moves (testing wait) p told h g = inl (_, _, refl)
IsParent-Moves (calling wait) p told h g = inl (_, _, refl)
IsParent-Moves (suspended wait) p told h g = inr (inl (ground arith))

IsChild-Moves :
    (q : Pc) (p : Process) (told : ℕ)
    → Heard (standing q p) told
    → IsChild (standing q p)
    → Moves (standing q p) ⊎ ((told ≡ 0) × (p.told ≡ 1)) ⊎ Finished (standing q p)
unfolding turn turn_from begun
IsChild-Moves ready p told h (inl (todo, at, n, m)) = inl (starts _ _ p todo)
IsChild-Moves ready p told h (inr (inl (todo, at, n, m))) = inl (starts _ _ p todo)
IsChild-Moves ready p told h (inr (inr (inl (todo, at, n, m)))) = absurd at
IsChild-Moves ready p told h (inr (inr (inr done))) = inr (inr done)
IsChild-Moves (testing wait) p told h g = inl (_, _, refl)
IsChild-Moves (calling wait) p told h g = inl (_, _, refl)
IsChild-Moves (suspended wait) p told h g = inr (inl (ground arith))

-- Behind TELL_WAIT, with the parent at WAIT_CHILD and TELL_CHILD and the child at TELL_PARENT and
-- WAIT_PARENT, there is no deadlock: in every reachable state one of the two has a step, or both have come
-- to the end, each behind one signal sent and one wait.
pub exchange-Finished :
    (old_p old_c : Bool) (p c : Process)
    → Reached (started old_p old_c parent_program child_program) (p, c)
    → ((t : Process × Process) × Step (p, c) t) ⊎ (Finished p × Finished c)
exchange-Finished old_p old_c p c r =
    let (hp, hc) = Reached-Hearing old_p old_c parent_program child_program (p, c) r in
    let (ip, ic) = Reached-InExchange old_p old_c (p, c) r in
    elim (IsParent-Moves p.at p c.told hp ip) [
      | inl (p', sent, e) ↦ inl (_, parent_turn p c p' sent e)
      | inr stuck ↦ elim (IsChild-Moves c.at c p.told hc ic) [
        | inl (c', sent, e) ↦ inl (_, child_turn p c c' sent e)
        | inr ended ↦ elim stuck [
          | inl asleep ↦ elim ended [
            | inl sleeping ↦ absurd (omega (arith, asleep.0, sleeping.1))
            | inr done ↦ absurd (omega (arith, asleep.0, done.2))
          ]
          | inr over ↦ elim ended [
            | inl sleeping ↦ absurd (omega (arith, sleeping.0, over.2))
            | inr done ↦ inr (over, done)
          ]
        ]
      ]
    ]
