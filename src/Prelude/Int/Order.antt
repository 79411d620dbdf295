-- ===== src/Prelude/Int/Order.antt =====
-- The order of the signed integers: a Boolean test, and lists that ascend in it.
use mathlib.Core.Path.{◌≡◌, ap₂, sym, subst}
use mathlib.Core.Bool.{Bool, true, false}
use mathlib.Core.Logic.Or
use mathlib.Core.List.{
  List, [], ◌∷◌, ◌++◌, Mem, Perm, Pairwise, mem-append, mem-cons_self, forall_mem-cons,
}
use mathlib.Core.List.Pairwise
use mathlib.Core.List.Perm
use native.Mathlib.Omega.{arith}
use unix_advanced_programing.Prelude.Tests.{ltb}
use unix_advanced_programing.Prelude.Int.{ℤ, pos, negsuc}

-- a < b
abbrev pub lt_ℤ : ℤ → ℤ → Bool
lt_ℤ (pos a) (pos b) = ltb a b
lt_ℤ (pos a) (negsuc b) = false
lt_ℤ (negsuc a) (pos b) = true
lt_ℤ (negsuc a) (negsuc b) = ltb b a

infix 4 ◌≼◌
abbrev pub ◌≼◌ : ℤ → ℤ → Type 0
a ≼ b = lt_ℤ b a ≡ false

pub ≼_refl : (a : ℤ) → a ≼ a
≼_refl (pos a) = ground arith
≼_refl (negsuc a) = ground arith

pub ≼_trans : (a b c : ℤ) → a ≼ b → b ≼ c → a ≼ c
≼_trans (pos a) (pos b) (pos c) p q = ground arith
≼_trans (pos a) (pos b) (negsuc c) p q = ground arith
≼_trans (pos a) (negsuc b) c p q = ground arith
≼_trans (negsuc a) (pos b) (pos c) p q = ground arith
≼_trans (negsuc a) (pos b) (negsuc c) p q = ground arith
≼_trans (negsuc a) (negsuc b) (pos c) p q = ground arith
≼_trans (negsuc a) (negsuc b) (negsuc c) p q = ground arith

pub ≼_antisymm : (a b : ℤ) → a ≼ b → b ≼ a → a ≡ b
≼_antisymm (pos a) (pos b) p q = ground arith
≼_antisymm (pos a) (negsuc b) p q = ground arith
≼_antisymm (negsuc a) (pos b) p q = ground arith
≼_antisymm (negsuc a) (negsuc b) p q = ground arith

pub ≼_of_lt : (a b : ℤ) → lt_ℤ a b ≡ true → a ≼ b
≼_of_lt (pos a) (pos b) h = ground arith
≼_of_lt (pos a) (negsuc b) h = ground arith
≼_of_lt (negsuc a) (pos b) h = ground arith
≼_of_lt (negsuc a) (negsuc b) h = ground arith

pub ≼_prop : (a b : ℤ) → IsProp (a ≼ b)
≼_prop a b = hlevel

abbrev pub IsSorted : List ℤ → Type 0
IsSorted = Pairwise ◌≼◌

-- What `Pairwise.cons` asks of a new head.
abbrev pub IsBelow : ℤ → List ℤ → Type 0
IsBelow a l = (x : ℤ) → Mem x l → a ≼ x

pub IsBelow-cons : (a b : ℤ) {l : List ℤ} → a ≼ b → IsBelow a l → IsBelow a (b ∷ l)
IsBelow-cons a b p h = (forall_mem-cons (≼_prop a)).1 (p, h)

pub IsBelow-append : (a : ℤ) {l r : List ℤ} → IsBelow a l → IsBelow a r → IsBelow a (l ++ r)
IsBelow-append a {l} {r} left right c where_in =
    Or.elim (≼_prop a c) (mem-append.0 where_in) (left c) (right c)

pub IsBelow-perm : (a : ℤ) {l r : List ℤ} → Perm l r → IsBelow a r → IsBelow a l
IsBelow-perm a p h x m = h x ((Perm.mem_iff p).0 m)

pub IsBelow-weaken : (a b : ℤ) {l : List ℤ} → a ≼ b → IsBelow b l → IsBelow a l
IsBelow-weaken a b p h x m = ≼_trans a b x p (h x m)

pub IsBelow-head : (a b : ℤ) {l : List ℤ} → a ≼ b → IsSorted (b ∷ l) → IsBelow a (b ∷ l)
IsBelow-head a b p (Pairwise.cons h _) = IsBelow-cons a b p (IsBelow-weaken a b p h)

-- The first number of an ascending list is the least one of every rearrangement.
first_least : (a x : ℤ) (l : List ℤ) → IsSorted (a ∷ l) → Mem x (a ∷ l) → a ≼ x
first_least a x l s m = IsBelow-head a a (≼_refl a) s x m

firsts_agree :
    (a b : ℤ) (l r : List ℤ) → Perm (a ∷ l) (b ∷ r) → IsSorted (a ∷ l) → IsSorted (b ∷ r) → a ≡ b
firsts_agree a b l r p s t =
    ≼_antisymm a b (first_least a b l s ((Perm.mem_iff p).1 mem-cons_self))
      (first_least b a r t ((Perm.mem_iff p).0 mem-cons_self))

rests_agree : (a b : ℤ) (l r : List ℤ) → a ≡ b → Perm (a ∷ l) (b ∷ r) → Perm l r
rests_agree a b l r e p = Perm.cons_inv (subst (λ c. Perm (a ∷ l) (c ∷ r)) (sym e) p)

-- A list has one ascending order.
pub ascending_unique : (l r : List ℤ) → Perm l r → IsSorted l → IsSorted r → l ≡ r
ascending_unique [] r p s t = Perm.nil-eq p
ascending_unique (a ∷ l) [] p s t = Perm.eq-nil p
ascending_unique (a ∷ l) (b ∷ r) p s t =
    let e = firsts_agree a b l r p s t in
    let rest = rests_agree a b l r e p in
    ap₂ ◌∷◌ e (ascending_unique l r rest (Pairwise.of_cons s) (Pairwise.of_cons t))
