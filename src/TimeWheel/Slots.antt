-- ===== src/TimeWheel/Slots.antt =====
-- The slots of the wheel as lists of connections.
use wind_cloud_v.Shared.{
  ℕ, ◌≡◌, refl, sym, Bool, true, false, not, ◌&&◌, List, [], ◌∷◌, Option, none, some, ◌==◌, arith,
}
use mathlib.Core.Path.{subst}
use wind_cloud_v.TimeWheel.{ControlConn, Conns, put_at, join_prev}

unfoldable pub absent : ℕ → List ℕ → Bool
absent c [] = true
absent c (d ∷ ds) = not (d == c) && absent c ds

-- From `head` on, the nodes of these connections, each with the one before it.
unfoldable pub IsLinked : Conns → Option ℕ → Option ℕ → List ℕ → Type 0
IsLinked conns before head [] = head ≡ none
IsLinked conns before head (c ∷ cs) =
    (head ≡ some c)
    × ((conns c).prev ≡ before)
    × (absent c cs ≡ true)
    × IsLinked conns (some c) (conns c).next cs

-- What is written to a connection outside the list does not matter.
pub frame :
    (conns : Conns) (before head : Option ℕ) (c : ℕ) (to : ControlConn) (cs : List ℕ)
    → absent c cs ≡ true
    → IsLinked conns before head cs
    → IsLinked (put_at conns c to) before head cs
unfolding absent IsLinked
frame conns before head c to [] a l = l
frame conns before head c to (d ∷ ds) a (e, p, b, l) =
    let other : (d == c) ≡ false = ground (arith, a) in
    (e, rw other p, b, rw other (frame conns (some d) (conns d).next c to ds (ground (arith, a)) l))

-- The first node gets another one before it.
pub join_prev-front :
    (conns : Conns) (before head before' : Option ℕ) (cs : List ℕ)
    → IsLinked conns before head cs
    → IsLinked (join_prev conns head before') before' head cs
unfolding IsLinked join_prev
join_prev-front conns before head before' [] l = l
join_prev-front conns before head before' (d ∷ ds) (e, p, b, l) =
    subst (λ h. IsLinked (join_prev conns h before') before' h (d ∷ ds)) (sym e) at_front
  where
    same : (d == d) ≡ true
    same = ground arith

    rest :
        IsLinked (put_at conns d (record (conns d) { prev = before' })) (some d) (conns d).next ds
    rest = frame conns (some d) (conns d).next d (record (conns d) { prev = before' }) ds b l

    at_front : IsLinked (join_prev conns (some d) before') before' (some d) (d ∷ ds)
    at_front = (refl, rw same refl, b, rw same rest)
