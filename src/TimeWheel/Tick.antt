-- ===== src/TimeWheel/Tick.antt =====
-- time_wheel_tick: which connections it closes.
use wind_cloud_v.Shared.{
  ℕ, suc, zero, ◌+◌, ◌%◌, ◌<◌, ◌≡◌, refl, ◌∙◌, true, false, List, [], ◌∷◌, Option, none, some, ◌==◌,
  leb, if◌then◌else◌, arith, inl, inr, Bool-cases, ap, length,
}
use wind_cloud_v.Shared.Int.{negsuc, pos_part}
use wind_cloud_v.TimeWheel.{
  ControlConn, TimeWheel, Conns, put_at, join_next, join_prev, set_head, detach_node, expire_slot,
  time_wheel_tick, time_wheel_slot_count,
}
use wind_cloud_v.TimeWheel.Slots.{absent, IsLinked, frame}
use wind_cloud_v.TimeWheel.Unlink.{unlinked, outside, unlinked-first, unlinked-same, outside-tail}
use wind_cloud_v.TimeWheel.Wheel.{Lists, IsWheel, set_head-times}

-- The connections of a list whose time has come.
unfoldable pub fired : Conns → ℕ → List ℕ → List ℕ
fired m tick [] = []
fired m tick (c ∷ cs) = if leb (m c).expire_tick tick then c ∷ fired m tick cs else fired m tick cs

-- The memory after c is detached and its node is freed.
unfoldable freed : Conns → ℕ → Conns
unfolding join_next join_prev
freed m c =
    put_at (unlinked m c) c (record (unlinked m c c) { has_node = false; wheel_slot = negsuc 0 })

put_at-other : (m : Conns) (c d : ℕ) (x : ControlConn) → (d == c) ≡ false → put_at m c x d ≡ m d
put_at-other m c d x n = rw n refl

freed-same :
    (m : Conns) (c d : ℕ)
    → (d == c) ≡ false
    → ((freed m c d).has_node ≡ (m d).has_node) × ((freed m c d).expire_tick ≡ (m d).expire_tick)
unfolding freed
freed-same m c d n =
    let (p, _, r) = unlinked-same m c d in
    let kept =
      put_at-other (unlinked m c) c d
        (record (unlinked m c c) { has_node = false; wheel_slot = negsuc 0 }) n in
    (ap (λ x. x.has_node) kept ∙ p, ap (λ x. x.expire_tick) kept ∙ r)

fired-same :
    (m : Conns) (c tick : ℕ) (cs : List ℕ)
    → absent c cs ≡ true
    → fired (freed m c) tick cs ≡ fired m tick cs
unfolding fired absent
fired-same m c tick [] a = refl
fired-same m c tick (d ∷ ds) a =
    let other : (d == c) ≡ false = ground (arith, a) in
    rw ((freed-same m c d other).1, fired-same m c tick ds (ground (arith, a))) refl

abbrev HasNodes : Conns → List ℕ → Type 0
HasNodes m cs = (d : ℕ) → absent d cs ≡ false → (m d).has_node ≡ true

freed-IsLinked :
    (m : Conns) (q h : Option ℕ) (c : ℕ) (ds : List ℕ)
    → IsLinked m q h (c ∷ ds)
    → absent c ds ≡ true
    → outside q ds ≡ true
    → IsLinked (freed m c) q (m c).next ds
unfolding freed
freed-IsLinked m q h c ds l a o =
    frame (unlinked m c) q (m c).next c
      (record (unlinked m c c) { has_node = false; wheel_slot = negsuc 0 }) ds a
      (unlinked-first m q h c ds l o)

expire_slot-due :
    (fuel c : ℕ) (wheel : TimeWheel) (m : Conns)
    → leb (m c).expire_tick wheel.current_tick ≡ true
    → (m c).has_node ≡ true
    → let head = set_head wheel (m c).prev (pos_part (m c).wheel_slot) (m c).next in
      (expire_slot (suc fuel) (some c) (wheel, m)).0
      ≡ c ∷ (expire_slot fuel (m c).next (head, freed m c)).0
unfolding expire_slot detach_node freed
expire_slot-due fuel c wheel m y has = rw (y, has) refl

expire_slot-later :
    (fuel c : ℕ) (wheel : TimeWheel) (m : Conns)
    → leb (m c).expire_tick wheel.current_tick ≡ false
    → (expire_slot (suc fuel) (some c) (wheel, m)).0 ≡ (expire_slot fuel (m c).next (wheel, m)).0
unfolding expire_slot
expire_slot-later fuel c wheel m y = rw y refl

expire_slot-none : (fuel : ℕ) (s : TimeWheel × Conns) → (expire_slot fuel none s).0 ≡ []
unfolding expire_slot
expire_slot-none zero s = refl
expire_slot-none (suc fuel) s = refl

freed-HasNodes :
    (m : Conns) (c : ℕ) (cs : List ℕ) → absent c cs ≡ true → HasNodes m cs → HasNodes (freed m c) cs
freed-HasNodes m c cs a has d i = elim (Bool-cases (d == c)) [
  | inl y ↦ let same : d ≡ c = ground arith in absurd (ground (arith, same, a, i))
  | inr y ↦ (freed-same m c d y).0 ∙ has d i
]

-- On enough fuel the loop stops at the end of the list.
expire_slot-fired :
    (cs : List ℕ) (fuel : ℕ) (before head : Option ℕ) (wheel : TimeWheel) (m : Conns)
    → length cs < fuel
    → IsLinked m before head cs
    → outside before cs ≡ true
    → HasNodes m cs
    → (expire_slot fuel head (wheel, m)).0 ≡ fired m wheel.current_tick cs
unfolding fired absent outside IsLinked
expire_slot-fired [] fuel before head wheel m h l o has = rw l (expire_slot-none fuel (wheel, m))
expire_slot-fired (c ∷ cs) zero before head wheel m h l o has = absurd (omega arith)
expire_slot-fired (c ∷ cs) (suc fuel) before head wheel m h (e, p, a, l) o has =
    elim (Bool-cases (leb (m c).expire_tick wheel.current_tick)) [
      | inl y ↦
          let off = outside-tail before c cs o in
          let linked = freed-IsLinked m before head c cs (e, p, a, l) a off in
          let head' = set_head wheel (m c).prev (pos_part (m c).wheel_slot) (m c).next in
          let time = (set_head-times wheel (m c).prev (m c).next (pos_part (m c).wheel_slot)).0 in
          let rest =
            expire_slot-fired cs fuel before (m c).next head' (freed m c) (omega arith) linked off
              (freed-HasNodes m c cs a (λ d h. has d (ground (arith, h)))) in
          rw (e, y)
            (expire_slot-due fuel c wheel m y (has c (ground arith))
              ∙ ap (λ r. c ∷ r)
                  (rest
                    ∙ ap (λ t. fired (freed m c) t cs) time
                    ∙ fired-same m c wheel.current_tick cs a))
      | inr y ↦
          rw (e, y)
            (expire_slot-later fuel c wheel m y
              ∙ expire_slot-fired cs fuel (some c) (m c).next wheel m (omega arith) l a
                  (λ d h. has d (ground (arith, h))))
    ]

-- A tick ends, and it closes exactly the connections of the new tick's slot whose time has come, in
-- the order of the slot. (The wheel is linked as its lists say, and the loop's fuel is more
-- than the number of connections in the slot.)
pub time_wheel_tick-fired :
    (fuel : ℕ) (wheel : TimeWheel) (conns : Conns) (lists : Lists)
    → IsWheel (wheel, conns) lists
    → length (lists ((wheel.current_tick + 1) % time_wheel_slot_count)) < fuel
    → (time_wheel_tick fuel (wheel, conns)).0
      ≡ fired conns
          (wheel.current_tick + 1)
          (lists ((wheel.current_tick + 1) % time_wheel_slot_count))
unfolding time_wheel_tick outside
time_wheel_tick-fired fuel wheel conns lists w h =
    let slot = (wheel.current_tick + 1) % time_wheel_slot_count in
    expire_slot-fired (lists slot) fuel none (wheel.slots slot)
      (record wheel { current_tick = wheel.current_tick + 1 }) conns h (w.slots.linked slot) refl
      (λ d i. (w.slots.placed slot d i).0)
