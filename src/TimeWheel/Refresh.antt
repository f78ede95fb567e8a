-- ===== src/TimeWheel/Refresh.antt =====
-- time_wheel_add and time_wheel_refresh on the wheel as lists.
use wind_cloud_v.Shared.{
  ℕ, ◌+◌, ◌%◌, ◌≡◌, refl, sym, ◌∙◌, Bool, true, false, not, ◌&&◌, ◌∷◌, none, some, ◌==◌,
  if◌then◌else◌, arith, inl, inr, Bool-cases, Option-cases, ap,
}
use mathlib.Core.Path.{subst}
use wind_cloud_v.Shared.Int.{pos, ltb_ℤ}
use wind_cloud_v.TimeWheel.{
  ControlConn, TimeWheel, Conns, put_at, join_prev, set_head, detach_node, time_wheel_add,
  time_wheel_refresh, time_wheel_slot_count,
}
use wind_cloud_v.TimeWheel.Slots.{absent, IsLinked, frame, join_prev-front}
use wind_cloud_v.TimeWheel.Unlink.{
  points, without, outside, join_prev-outside, head-inside, unlinked-same, unlinked, absent_self,
  keeps_other, join_prev-other, join_prev-same,
}
use wind_cloud_v.TimeWheel.Wheel.{
  Lists, IsPlaced, IsWheel, dropped, elsewhere, detached, detach_node-eq, detached-IsPlaced,
  without-absent, still, set_head-times,
}

abbrev pub pushed : ℕ → ℕ → Lists → Lists
pushed slot c lists j = if j == slot then c ∷ lists j else lists j

abbrev due : TimeWheel → ℕ
due wheel = wheel.current_tick + wheel.timeout_sec

unfoldable placed_conn : TimeWheel → ControlConn → ControlConn
placed_conn wheel conn = record conn {
  has_node = true;
  expire_tick = due wheel;
  wheel_slot = pos (due wheel % time_wheel_slot_count);
  prev = none;
  next = wheel.slots (due wheel % time_wheel_slot_count);
}

module _ (wheel : TimeWheel) (conns : Conns) (lists : Lists) (w : IsPlaced (wheel, conns) lists)
    (c : ℕ) (nowhere : (j : ℕ) → absent c (lists j) ≡ true) where
  slot : ℕ
  slot = due wheel % time_wheel_slot_count

  made : Conns
  made = put_at conns c (placed_conn wheel (conns c))

  added : TimeWheel × Conns
  added = (
    record wheel { slots = put_at wheel.slots slot (some c) },
    join_prev made (wheel.slots slot) (some c),
  )

  time_wheel_add-eq :
      (allocates : Bool)
      → (not (conns c).has_node && not allocates) ≡ false
      → time_wheel_add allocates c (wheel, conns) ≡ added
  unfolding time_wheel_add added made slot placed_conn
  time_wheel_add-eq allocates h = rw h refl

  made-IsLinked : (j : ℕ) → IsLinked made none (wheel.slots j) (lists j)
  unfolding made
  made-IsLinked j =
      frame conns none (wheel.slots j) c (placed_conn wheel (conns c)) (lists j) (nowhere j)
        (w.linked j)

  made_self : made c ≡ placed_conn wheel (conns c)
  unfolding made
  made_self = let same : (c == c) ≡ true = ground arith in rw same refl

  added_self : added.1 c ≡ placed_conn wheel (conns c)
  unfolding added
  added_self =
      join_prev-other made (wheel.slots slot) (some c) c
        (head-inside conns none (wheel.slots slot) c (lists slot) (w.linked slot) (nowhere slot))
      ∙ made_self

  added-front : IsLinked added.1 none (some c) (c ∷ lists slot)
  unfolding added placed_conn IsLinked slot
  added-front = (
    refl,
    rw added_self refl,
    nowhere slot,
    rw added_self
        (join_prev-front made none (wheel.slots slot) (some c) (lists slot) (made-IsLinked slot)),
  )

  head-outside : (j : ℕ) → (j == slot) ≡ false → outside (wheel.slots slot) (lists j) ≡ true
  unfolding outside points
  head-outside j n = elim (Option-cases (wheel.slots slot)) [
    | inl e ↦ rw e refl
    | inr (d, e) ↦ elim (Bool-cases (absent d (lists slot))) [
      | inl y ↦ absurd (
          ground
            (arith, head-inside conns none (wheel.slots slot) d (lists slot) (w.linked slot) y, e))
      | inr y ↦ rw e (elsewhere wheel conns lists w d slot y j d n y)
    ]
  ]

  added-IsLinked : (j : ℕ) → IsLinked added.1 none (added.0.slots j) (pushed slot c lists j)
  unfolding added
  added-IsLinked j = elim (Bool-cases (j == slot)) [
    | inl y ↦ let same : j ≡ slot = ground arith in rw (y, same) added-front
    | inr y ↦ rw y (
        join_prev-outside made (wheel.slots slot) (wheel.slots j) none (some c) (lists j)
          (head-outside j y) (made-IsLinked j))
  ]

  added-other :
      (d : ℕ)
      → (d == c) ≡ false
      → ((added.1 d).has_node ≡ (conns d).has_node)
        × ((added.1 d).wheel_slot ≡ (conns d).wheel_slot)
        × ((added.1 d).expire_tick ≡ (conns d).expire_tick)
  unfolding added made
  added-other d n =
      let (p, q, r) = join_prev-same made (wheel.slots slot) (some c) d in
      (p ∙ rw n refl, q ∙ rw n refl, r ∙ rw n refl)

  added-placed :
      (j d : ℕ)
      → absent d (pushed slot c lists j) ≡ false
      → ((added.1 d).has_node ≡ true) × ((added.1 d).wheel_slot ≡ pos j)
  unfolding absent placed_conn slot
  added-placed j d h = elim (Bool-cases (d == c)) [
    | inl y ↦
        let same : d ≡ c = ground arith in
        let at_slot : j ≡ slot = ground (arith, h, nowhere j) in
        rw (same, added_self) (refl, rw at_slot refl)
    | inr y ↦
        let (p, q, _) = added-other d y in
        let within : absent d (lists j) ≡ false = ground (arith, h) in
        let (p', q') = w.placed j d within in (p ∙ p', q ∙ q')
  ]

  added-IsPlaced : IsPlaced added (pushed slot c lists)
  added-IsPlaced = record { linked = added-IsLinked; placed = added-placed }

-- A wheel without the connection c, which may have a node that is in no slot.
record IsReady (c : ℕ) (s : TimeWheel × Conns) (lists : Lists) : Type 0 where
  pub slots : IsPlaced s lists
  pub nowhere : (j : ℕ) → absent c (lists j) ≡ true
  pub held :
      (d : ℕ)
      → (d == c) ≡ false
      → (s.1 d).has_node ≡ true
      → (i : ℕ) × ((s.1 d).wheel_slot ≡ pos i) × (absent d (lists i) ≡ false)

-- c is now at the front of the slot of its time.
abbrev pub IsPlacedAt : ℕ → ℕ → Lists → TimeWheel × Conns → Type 0
IsPlacedAt time c lists s =
    IsWheel s (pushed (time % time_wheel_slot_count) c lists) × ((s.1 c).expire_tick ≡ time)

added-IsWheel :
    (wheel : TimeWheel) (conns : Conns) (lists : Lists) (c : ℕ) (allocates : Bool)
    → IsReady c (wheel, conns) lists
    → (not (conns c).has_node && not allocates) ≡ false
    → IsPlacedAt (due wheel) c lists (time_wheel_add allocates c (wheel, conns))
unfolding slot placed_conn absent
added-IsWheel wheel conns lists c allocates r h =
    rw (time_wheel_add-eq wheel conns lists r.slots c r.nowhere allocates h) (
      record { slots = added-IsPlaced wheel conns lists r.slots c r.nowhere; held = held_at },
      rw (added_self wheel conns lists r.slots c r.nowhere) refl,
    )
  where
    held_at :
        (d : ℕ)
        → ((added wheel conns lists r.slots c r.nowhere).1 d).has_node ≡ true
        → (i : ℕ) × (((added wheel conns lists r.slots c r.nowhere).1 d).wheel_slot ≡ pos i)
          × (absent d (pushed (due wheel % time_wheel_slot_count) c lists i) ≡ false)
    held_at d has = elim (Bool-cases (d == c)) [
      | inl y ↦
          let same : d ≡ c = ground arith in
          (
            due wheel % time_wheel_slot_count,
            rw (same, added_self wheel conns lists r.slots c r.nowhere) refl,
            ground (arith, same),
          )
      | inr y ↦
          let (p, q, _) = added-other wheel conns lists r.slots c r.nowhere d y in
          let (i, at, within) = r.held d y (sym p ∙ has) in (i, q ∙ at, ground (arith, within))
    ]

module _ (wheel : TimeWheel) (conns : Conns) (lists : Lists) (w : IsWheel (wheel, conns) lists)
    (c : ℕ) where
  idle-IsReady : (conns c).has_node ≡ false → IsReady c (wheel, conns) (dropped c lists)
  idle-IsReady idle = record {
    slots = record {
      linked = λ j. rw (without-absent c (lists j) (nowhere j)) (w.slots.linked j);
      placed = λ j d h. w.slots.placed j d (still c d (lists j) h);
    };
    nowhere = λ j. rw (without-absent c (lists j) (nowhere j)) (nowhere j);
    held = λ d n has.
        (let (i, at, within) = w.held d has in (i, at, keeps_other c d (lists i) n within));
  }
    where
      nowhere : (j : ℕ) → absent c (lists j) ≡ true
      nowhere j = elim (Bool-cases (absent c (lists j))) [
        | inl y ↦ y
        | inr y ↦ absurd (ground (arith, idle, w.slots.placed j c y))
      ]

  detached-IsReady :
      (i : ℕ) → absent c (lists i) ≡ false → IsReady c (detached wheel conns c i) (dropped c lists)
  unfolding detached
  detached-IsReady i here = record {
    slots = detached-IsPlaced wheel conns lists c i w.slots here;
    nowhere = nowhere;
    held = λ d n has.
        (let (p, q, _) = unlinked-same conns c d in
          let (k, at, within) = w.held d (sym p ∙ has) in
          (k, q ∙ at, keeps_other c d (lists k) n within));
  }
    where
      nowhere : (j : ℕ) → absent c (without c (lists j)) ≡ true
      nowhere j = absent_self conns none (wheel.slots j) c (lists j) (w.slots.linked j)

  detached-refreshed :
      (allocates : Bool) (i : ℕ)
      → absent c (lists i) ≡ false
      → (conns c).has_node ≡ true
      → IsPlacedAt
          (due wheel)
          c
          (dropped c lists)
          (time_wheel_add allocates c (detached wheel conns c i))
  unfolding detached
  detached-refreshed allocates i here has =
      let (tick, timeout) = set_head-times wheel (conns c).prev (conns c).next i in
      let same : due (detached wheel conns c i).0 ≡ due wheel = rw (tick, timeout) refl in
      subst
        (λ t.
          IsPlacedAt t c (dropped c lists) (time_wheel_add allocates c (detached wheel conns c i)))
        same
        (added-IsWheel (set_head wheel (conns c).prev i (conns c).next) (unlinked conns c)
          (dropped c lists) c allocates (detached-IsReady i here)
          (rw ((unlinked-same conns c c).0, has) refl))

  refresh-held :
      (allocates : Bool) (i : ℕ)
      → (conns c).has_node ≡ true
      → (conns c).wheel_slot ≡ pos i
      → time_wheel_refresh allocates c (wheel, conns)
        ≡ time_wheel_add allocates c (detached wheel conns c i)
  unfolding time_wheel_refresh
  refresh-held allocates i has at =
      let in_slot : ((conns c).has_node && not (ltb_ℤ (conns c).wheel_slot (pos 0))) ≡ true =
        rw (has, at) (ground arith) in
      let opened : time_wheel_refresh allocates c (wheel, conns)
          ≡ time_wheel_add allocates c (detach_node c (wheel, conns)) =
        rw (time_wheel_refresh, in_slot) refl in
      opened ∙ ap (time_wheel_add allocates c) (detach_node-eq wheel conns c i has at)

  refresh-idle :
      (allocates : Bool)
      → (conns c).has_node ≡ false
      → time_wheel_refresh allocates c (wheel, conns) ≡ time_wheel_add allocates c (wheel, conns)
  unfolding time_wheel_refresh
  refresh-idle allocates idle =
      let in_none : ((conns c).has_node && not (ltb_ℤ (conns c).wheel_slot (pos 0))) ≡ false =
        rw idle refl in
      rw (time_wheel_refresh, in_none) refl

  -- A refreshed connection moves to the front of the slot of its new time, which is the timeout from
  -- now, wherever it was in the wheel; every other connection stays in its slot, in the same order, and
  -- each slot's nodes are linked both ways as its list says. (The wheel was linked as its lists say,
  -- and the connection has a node or `calloc` gives it one.)
  pub time_wheel_refresh-IsWheel :
      (allocates : Bool)
      → (not (conns c).has_node && not allocates) ≡ false
      → IsPlacedAt
          (wheel.current_tick + wheel.timeout_sec)
          c
          (dropped c lists)
          (time_wheel_refresh allocates c (wheel, conns))
  time_wheel_refresh-IsWheel allocates h = elim (Bool-cases (conns c).has_node) [
    | inr idle ↦
        rw (refresh-idle allocates idle)
          (added-IsWheel wheel conns (dropped c lists) c allocates (idle-IsReady idle) h)
    | inl has ↦
        let (i, at, here) = w.held c has in
        rw (refresh-held allocates i has at) (detached-refreshed allocates i here has)
  ]
