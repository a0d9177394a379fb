-- ===== src/Prelude/Sets.antt =====
-- `BTreeSet` of numbers: the ascending list of its members.
use Prim.Native.Nat.{ℕ, suc, ◌+◌, ◌≤◌}
use mathlib.Core.Path.{◌≡◌}
use mathlib.Core.Bool.{Bool, ◌||◌}
use mathlib.Core.List.{List, [], ◌∷◌}
use native.Mathlib.Omega.{arith}
use cpsr_lite.Prelude.Counts.{count}
use cpsr_lite.Prelude.Lists.{any, length}
use cpsr_lite.Prelude.Tests.{ltb, ◌==◌, if◌then◌else◌}

unfoldable pub insert_set : ℕ → List ℕ → List ℕ
insert_set v [] = v ∷ []
insert_set v (x ∷ xs) =
    let rest = insert_set v xs in
    if v == x then x ∷ xs else if ltb v x then v ∷ x ∷ xs else x ∷ rest

abbrev pub contains : List ℕ → ℕ → Bool
contains s v = any (λ x. x == v) s

-- A member that is new is added once.
pub count-insert_set :
    (v w : ℕ) (s : List ℕ)
    → count v s ≡ 0
    → count w (insert_set v s) ≡ count w s + (if v == w then 1 else 0)
unfolding insert_set
count-insert_set v w [] h = omega arith
count-insert_set v w (x ∷ s) h = ground (arith, count-insert_set v w s)

pub contains-insert_set :
    (v w : ℕ) (s : List ℕ) → contains (insert_set v s) w ≡ (v == w || contains s w)
unfolding insert_set
contains-insert_set v w [] = ground arith
contains-insert_set v w (x ∷ s) = ground (arith, contains-insert_set v w s)

pub length-insert_set :
    (v : ℕ) (s : List ℕ)
    → (length s ≤ length (insert_set v s)) × (length (insert_set v s) ≤ suc (length s))
unfolding insert_set
length-insert_set v [] = omega arith
length-insert_set v (x ∷ s) = ground (arith, length-insert_set v s)
