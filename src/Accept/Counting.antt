-- ===== src/Accept/Counting.antt =====
-- src/server/server.cpp, the threads of the connections: sums over them.
use distributed_integration.Base.{
  ℕ, zero, suc, ◌+◌, ◌≡◌, some, List, [], ◌∷◌, ◌++◌, get_elem?, set, arith, ap,
}
use mathlib.Core.Option
use distributed_integration.Accept.{Handler}

abbrev pub total : (Handler → ℕ) → List Handler → ℕ
total f [] = 0
total f (h ∷ hs) = f h + total f hs

pub total-append :
    (f : Handler → ℕ) (xs ys : List Handler) → total f (xs ++ ys) ≡ total f xs + total f ys
total-append f [] ys = omega arith
total-append f (x ∷ xs) ys = omega (arith, total-append f xs ys)

-- The step of one thread moves the sum by what it moves the thread.
pub total-set :
    (f : Handler → ℕ) (hs : List Handler) (i : ℕ) (h h' : Handler)
    → get_elem? hs i ≡ some h
    → total f (set hs i h') + f h ≡ total f hs + f h'
total-set f [] i h h' e = cc
total-set f (x ∷ hs) zero h h' e = omega (arith, ap f (Option.some-injective _ _ e))
total-set f (x ∷ hs) (suc i) h h' e = omega (arith, total-set f hs i h h' e)
