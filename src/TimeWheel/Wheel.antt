-- ===== src/TimeWheel/Wheel.antt =====
-- The wheel as a list of connections for each slot.
use wind_cloud_v.Shared.{
  ℕ, ◌≡◌, refl, ◌∙◌, true, false, List, [], ◌∷◌, Option, none, some, ◌==◌, if◌then◌else◌, arith,
  inl, inr, Bool-cases, Option-cases,
}
use wind_cloud_v.Shared.Int.{pos}
use wind_cloud_v.TimeWheel.{TimeWheel, Conns, join_next, join_prev, set_head, detach_node}
use wind_cloud_v.TimeWheel.Slots.{absent, IsLinked, frame}
use wind_cloud_v.TimeWheel.Unlink.{
  points, without, unlinked, next-inside, outside, join_next-outside, join_prev-outside,
  unlinked-IsLinked, prev-within, unlinked-same, absent-without,
}

abbrev pub Lists : Type 0
Lists = ℕ → List ℕ

-- Each slot's nodes are linked in the order of its list, and stand in no other slot.
pub record IsPlaced (s : TimeWheel × Conns) (lists : Lists) : Type 0 where
  pub linked : (i : ℕ) → IsLinked s.1 none (s.0.slots i) (lists i)
  pub placed :
      (i c : ℕ)
      → absent c (lists i) ≡ false
      → ((s.1 c).has_node ≡ true) × ((s.1 c).wheel_slot ≡ pos i)

-- And every node is in the list of its slot.
pub record IsWheel (s : TimeWheel × Conns) (lists : Lists) : Type 0 where
  pub slots : IsPlaced s lists
  pub held :
      (c : ℕ)
      → (s.1 c).has_node ≡ true
      → (i : ℕ) × ((s.1 c).wheel_slot ≡ pos i) × (absent c (lists i) ≡ false)

abbrev pub dropped : ℕ → Lists → Lists
dropped c lists j = without c (lists j)

pub without-absent : (c : ℕ) (cs : List ℕ) → absent c cs ≡ true → without c cs ≡ cs
unfolding without absent
without-absent c [] h = refl
without-absent c (d ∷ ds) h = ground (arith, h, without-absent c ds)

module _ (wheel : TimeWheel) (conns : Conns) (lists : Lists) (w : IsPlaced (wheel, conns) lists)
    (c i : ℕ) (here : absent c (lists i) ≡ false) where
  pub elsewhere :
      (j d : ℕ) → (j == i) ≡ false → absent d (lists i) ≡ false → absent d (lists j) ≡ true
  elsewhere j d n h = elim (Bool-cases (absent d (lists j))) [
    | inl y ↦ y
    | inr y ↦ absurd (ground (arith, w.placed i d h, w.placed j d y, n))
  ]

  next-outside : (j : ℕ) → (j == i) ≡ false → outside (conns c).next (lists j) ≡ true
  unfolding outside points
  next-outside j n = elim (Option-cases (conns c).next) [
    | inl e ↦ rw e refl
    | inr (d, e) ↦ elim (Bool-cases (absent d (lists i))) [
      | inl y ↦ absurd (
          ground
            (arith, next-inside conns none (wheel.slots i) c d (lists i) (w.linked i) here y, e))
      | inr y ↦ rw e (elsewhere j d n y)
    ]
  ]

  prev-outside : (j : ℕ) → (j == i) ≡ false → outside (conns c).prev (lists j) ≡ true
  unfolding outside points
  prev-outside j n = elim (Option-cases (conns c).prev) [
    | inl e ↦ rw e refl
    | inr (d, e) ↦ elim (Bool-cases (absent d (lists i))) [
      | inl y ↦ absurd (
          ground (
            arith,
            prev-within conns none (wheel.slots i) c d (lists i) (w.linked i) here y refl,
            e,
          ))
      | inr y ↦ rw e (elsewhere j d n y)
    ]
  ]

  unlinked-elsewhere :
      (j : ℕ) → (j == i) ≡ false → IsLinked (unlinked conns c) none (wheel.slots j) (lists j)
  unlinked-elsewhere j n =
      let p = (conns c).prev in
      let x = (conns c).next in
      let m = join_prev (join_next conns p x) x p in
      frame m none (wheel.slots j) c (record (m c) { prev = none; next = none }) (lists j)
        (elsewhere j c n here)
        (join_prev-outside (join_next conns p x) x (wheel.slots j) none p (lists j)
          (next-outside j n)
          (join_next-outside conns p (wheel.slots j) none x (lists j) (prev-outside j n)
            (w.linked j)))

set_head-same :
    (wheel : TimeWheel) (p n : Option ℕ) (i : ℕ)
    → (set_head wheel p i n).slots i ≡ (if points p none then n else wheel.slots i)
unfolding set_head points
set_head-same wheel none n i = ground arith
set_head-same wheel (some a) n i = refl

set_head-other :
    (wheel : TimeWheel) (p n : Option ℕ) (i j : ℕ)
    → (j == i) ≡ false
    → (set_head wheel p i n).slots j ≡ wheel.slots j
unfolding set_head
set_head-other wheel none n i j h = ground (arith, h)
set_head-other wheel (some a) n i j h = refl

pub still : (c d : ℕ) (cs : List ℕ) → absent d (without c cs) ≡ false → absent d cs ≡ false
still c d cs h = elim (Bool-cases (absent d cs)) [
  | inl y ↦ absurd (ground (arith, h, absent-without d c cs y))
  | inr y ↦ y
]

unfoldable pub detached : TimeWheel → Conns → ℕ → ℕ → TimeWheel × Conns
unfolding set_head join_next join_prev
detached wheel conns c i = (set_head wheel (conns c).prev i (conns c).next, unlinked conns c)

pub detach_node-eq :
    (wheel : TimeWheel) (conns : Conns) (c i : ℕ)
    → (conns c).has_node ≡ true
    → (conns c).wheel_slot ≡ pos i
    → detach_node c (wheel, conns) ≡ detached wheel conns c i
unfolding detach_node detached
detach_node-eq wheel conns c i h e = rw (h, e) refl

pub detached-IsPlaced :
    (wheel : TimeWheel) (conns : Conns) (lists : Lists) (c i : ℕ)
    → IsPlaced (wheel, conns) lists
    → absent c (lists i) ≡ false
    → IsPlaced (detached wheel conns c i) (dropped c lists)
unfolding detached outside
detached-IsPlaced wheel conns lists c i w here = record { linked = linked_at; placed = placed_at }
  where
    linked_at :
        (j : ℕ)
        → IsLinked
            (unlinked conns c)
            none
            ((set_head wheel (conns c).prev i (conns c).next).slots j)
            (without c (lists j))
    linked_at j = elim (Bool-cases (j == i)) [
      | inl y ↦
          let same : j ≡ i = ground arith in
          rw (same, set_head-same wheel (conns c).prev (conns c).next i)
            (unlinked-IsLinked conns none (wheel.slots i) c (lists i) (w.linked i) here refl)
      | inr y ↦
          rw
            (
              set_head-other wheel (conns c).prev (conns c).next i j y,
              without-absent c (lists j) (elsewhere wheel conns lists w c i here j c y here),
            )
            (unlinked-elsewhere wheel conns lists w c i here j y)
    ]

    placed_at :
        (j d : ℕ)
        → absent d (without c (lists j)) ≡ false
        → ((unlinked conns c d).has_node ≡ true) × ((unlinked conns c d).wheel_slot ≡ pos j)
    placed_at j d h =
        let (has, slot, _) = unlinked-same conns c d in
        let (has', slot') = w.placed j d (still c d (lists j) h) in (has ∙ has', slot ∙ slot')

-- Detaching changes no time of the wheel.
pub set_head-times :
    (wheel : TimeWheel) (p n : Option ℕ) (i : ℕ)
    → ((set_head wheel p i n).current_tick ≡ wheel.current_tick)
      × ((set_head wheel p i n).timeout_sec ≡ wheel.timeout_sec)
unfolding set_head
set_head-times wheel none n i = (refl, refl)
set_head-times wheel (some a) n i = (refl, refl)
