-- ===== src/TimeWheel/Unlink.antt =====
-- What detach_node leaves of a doubly linked list.
use wind_cloud_v.Shared.{
  ℕ, ◌≡◌, refl, ◌∙◌, Bool, true, false, List, [], ◌∷◌, Option, none, some, ◌==◌, if◌then◌else◌,
  arith, inl, inr, Bool-cases, ap,
}
use wind_cloud_v.TimeWheel.{Conns, join_next, join_prev, clear_links}
use wind_cloud_v.TimeWheel.Slots.{absent, IsLinked, frame, join_prev-front}

unfoldable pub points : Option ℕ → Option ℕ → Bool
points none none = true
points (some a) (some b) = a == b
points none (some b) = false
points (some a) none = false

unfoldable pub without : ℕ → List ℕ → List ℕ
without c [] = []
without c (d ∷ ds) = if d == c then ds else d ∷ without c ds

-- The memory that detach_node leaves.
abbrev pub unlinked : Conns → ℕ → Conns
unlinked m c = clear_links (join_prev (join_next m (m c).prev (m c).next) (m c).next (m c).prev) c

points_self : (q : Option ℕ) → points q q ≡ true
unfolding points
points_self none = refl
points_self (some a) = ground arith

unlinked-next :
    (m : Conns) (c d : ℕ)
    → (d == c) ≡ false
    → (unlinked m c d).next ≡ (if points (m c).prev (some d) then (m c).next else (m d).next)
unfolding points join_next join_prev
unlinked-next m c d h = next_at (m c).prev (m c).next
  where
    next_at :
        (p n : Option ℕ)
        → (clear_links (join_prev (join_next m p n) n p) c d).next
          ≡ (if points p (some d) then n else (m d).next)
    next_at none none = ground (arith, h)
    next_at (some a) none = ground (arith, h)
    next_at none (some b) = ground (arith, h)
    next_at (some a) (some b) = ground (arith, h)

unlinked-prev :
    (m : Conns) (c d : ℕ)
    → (d == c) ≡ false
    → points (m c).next (some d) ≡ false
    → (unlinked m c d).prev ≡ (m d).prev
unfolding points join_next join_prev
unlinked-prev m c d h away = prev_at (m c).prev (m c).next away
  where
    prev_at :
        (p n : Option ℕ)
        → points n (some d) ≡ false
        → (clear_links (join_prev (join_next m p n) n p) c d).prev ≡ (m d).prev
    prev_at none none w = ground (arith, h)
    prev_at (some a) none w = ground (arith, h)
    prev_at none (some b) w = ground (arith, h, w)
    prev_at (some a) (some b) w = ground (arith, h, w)

pub absent-without : (d c : ℕ) (cs : List ℕ) → absent d cs ≡ true → absent d (without c cs) ≡ true
unfolding without absent
absent-without d c [] h = refl
absent-without d c (e ∷ es) h = ground (arith, h, absent-without d c es)

-- No node of a list points forth to one outside it.
pub next-inside :
    (m : Conns) (q h : Option ℕ) (c d : ℕ) (cs : List ℕ)
    → IsLinked m q h cs
    → absent c cs ≡ false
    → absent d cs ≡ true
    → points (m c).next (some d) ≡ false
unfolding IsLinked points absent
next-inside m q h c d [] l i o = absurd (ground (arith, i))
next-inside m q h c d (e ∷ []) (_, _, _, l) i o =
    let same : e ≡ c = ground (arith, i) in rw (← same, l) refl
next-inside m q h c d (e ∷ (e' ∷ es)) (_, _, _, l) i o = elim (Bool-cases (e == c)) [
  | inl y ↦ let same : e ≡ c = ground arith in rw (← same, l.0) (ground (arith, o))
  | inr y ↦
      next-inside m (some e) (m e).next c d (e' ∷ es) l (ground (arith, i)) (ground (arith, o))
]

-- Nor back, but for the first.
prev-inside :
    (m : Conns) (h : Option ℕ) (b c d : ℕ) (cs : List ℕ)
    → IsLinked m (some b) h cs
    → absent c cs ≡ false
    → absent d (b ∷ cs) ≡ true
    → points (m c).prev (some d) ≡ false
unfolding IsLinked points absent
prev-inside m h b c d [] l i o = absurd (ground (arith, i))
prev-inside m h b c d (e ∷ es) (_, p, _, l) i o = elim (Bool-cases (e == c)) [
  | inl y ↦ let same : e ≡ c = ground arith in rw (← same, p) (ground (arith, o))
  | inr y ↦ prev-inside m (m e).next e c d es l (ground (arith, i)) (ground (arith, o))
]

prev-there :
    (m : Conns) (h : Option ℕ) (b c : ℕ) (cs : List ℕ)
    → IsLinked m (some b) h cs
    → absent c cs ≡ false
    → points (m c).prev none ≡ false
unfolding IsLinked points absent
prev-there m h b c [] l i = absurd (ground (arith, i))
prev-there m h b c (e ∷ es) (_, p, _, l) i = elim (Bool-cases (e == c)) [
  | inl y ↦ let same : e ≡ c = ground arith in rw (← same, p) refl
  | inr y ↦ prev-there m (m e).next e c es l (ground (arith, i))
]

unfoldable pub outside : Option ℕ → List ℕ → Bool
outside none cs = true
outside (some b) cs = absent b cs

pub join_next-outside :
    (m : Conns) (q h before to : Option ℕ) (cs : List ℕ)
    → outside q cs ≡ true
    → IsLinked m before h cs
    → IsLinked (join_next m q to) before h cs
unfolding join_next outside
join_next-outside m none h before to cs o l = l
join_next-outside m (some b) h before to cs o l =
    frame m before h b (record (m b) { next = to }) cs o l

pub unlinked-first :
    (m : Conns) (q h : Option ℕ) (c : ℕ) (ds : List ℕ)
    → IsLinked m q h (c ∷ ds)
    → outside q ds ≡ true
    → IsLinked (unlinked m c) q (m c).next ds
unfolding IsLinked
unlinked-first m q h c ds (_, p, a, l) o =
    let skipped = join_prev (join_next m q (m c).next) (m c).next q in
    let l' : IsLinked skipped q (m c).next ds =
      join_prev-front (join_next m q (m c).next) (some c) (m c).next q ds
        (join_next-outside m q (m c).next (some c) (m c).next ds o l) in
    rw p (frame skipped q (m c).next c (record (skipped c) { prev = none; next = none }) ds a l')

pub outside-tail :
    (q : Option ℕ) (d : ℕ) (ds : List ℕ) → outside q (d ∷ ds) ≡ true → outside q ds ≡ true
unfolding outside absent
outside-tail none d ds o = refl
outside-tail (some b) d ds o = ground (arith, o)

prev-outside :
    (m : Conns) (q h : Option ℕ) (d c : ℕ) (ds : List ℕ)
    → IsLinked m (some d) h ds
    → absent c ds ≡ false
    → outside q (d ∷ ds) ≡ true
    → points (m c).prev q ≡ false
unfolding outside
prev-outside m none h d c ds l i o = prev-there m h d c ds l i
prev-outside m (some b) h d c ds l i o = prev-inside m h d c b ds l i o

-- Whichever node of a list is unlinked, the others stay in order.
pub unlinked-IsLinked :
    (m : Conns) (q h : Option ℕ) (c : ℕ) (cs : List ℕ)
    → IsLinked m q h cs
    → absent c cs ≡ false
    → outside q cs ≡ true
    → IsLinked (unlinked m c) q (if points (m c).prev q then (m c).next else h) (without c cs)
unfolding IsLinked absent without outside
unlinked-IsLinked m q h c [] l i o = absurd (ground (arith, i))
unlinked-IsLinked m q h c (d ∷ ds) (e, p, a, l) i o = elim (Bool-cases (d == c)) [
  | inl y ↦
      let same : d ≡ c = ground arith in
      let back : (m c).prev ≡ q = rw (← same) p in
      let at_q : points (m c).prev q ≡ true = rw back (points_self q) in
      rw (y, at_q)
        (unlinked-first m q h c ds (e ∙ ap some same, back, rw (← same) a, rw (← same) l)
          (outside-tail q d ds o))
  | inr y ↦
      let within : absent c ds ≡ false = ground (arith, i, y) in
      let away = next-inside m (some d) (m d).next c d ds l within a in
      rw (y, prev-outside m q (m d).next d c ds l within o)
        (
          e,
          unlinked-prev m c d y away ∙ p,
          absent-without d c ds a,
          rw (unlinked-next m c d y) (unlinked-IsLinked m (some d) (m d).next c ds l within a),
        )
]

pub join_prev-outside :
    (m : Conns) (q h before to : Option ℕ) (cs : List ℕ)
    → outside q cs ≡ true
    → IsLinked m before h cs
    → IsLinked (join_prev m q to) before h cs
unfolding join_prev outside
join_prev-outside m none h before to cs o l = l
join_prev-outside m (some b) h before to cs o l =
    frame m before h b (record (m b) { prev = to }) cs o l

pub prev-within :
    (m : Conns) (before h : Option ℕ) (c d : ℕ) (cs : List ℕ)
    → IsLinked m before h cs
    → absent c cs ≡ false
    → absent d cs ≡ true
    → points before (some d) ≡ false
    → points (m c).prev (some d) ≡ false
unfolding IsLinked absent
prev-within m before h c d [] l i o w = absurd (ground (arith, i))
prev-within m before h c d (e ∷ es) (_, p, _, l) i o w = elim (Bool-cases (e == c)) [
  | inl y ↦ let same : e ≡ c = ground arith in rw (← same, p) w
  | inr y ↦ prev-inside m (m e).next e c d es l (ground (arith, i)) (ground (arith, o))
]

-- What unlinking leaves of each connection.
pub unlinked-same :
    (m : Conns) (c d : ℕ)
    → ((unlinked m c d).has_node ≡ (m d).has_node)
      × ((unlinked m c d).wheel_slot ≡ (m d).wheel_slot)
      × ((unlinked m c d).expire_tick ≡ (m d).expire_tick)
unfolding join_next join_prev
unlinked-same m c d = same_at (m c).prev (m c).next
  where
    same_at :
        (p n : Option ℕ)
        → let x = clear_links (join_prev (join_next m p n) n p) c d in
          (x.has_node ≡ (m d).has_node)
          × (x.wheel_slot ≡ (m d).wheel_slot)
          × (x.expire_tick ≡ (m d).expire_tick)
    same_at none none = (ground arith, ground arith, ground arith)
    same_at (some a) none = (ground arith, ground arith, ground arith)
    same_at none (some b) = (ground arith, ground arith, ground arith)
    same_at (some a) (some b) = (ground arith, ground arith, ground arith)

pub head-inside :
    (m : Conns) (before h : Option ℕ) (c : ℕ) (cs : List ℕ)
    → IsLinked m before h cs
    → absent c cs ≡ true
    → points h (some c) ≡ false
unfolding IsLinked absent points
head-inside m before h c [] l o = rw l refl
head-inside m before h c (d ∷ ds) (e, _, _, _) o = rw e (ground (arith, o))

pub join_prev-other :
    (m : Conns) (h to : Option ℕ) (c : ℕ) → points h (some c) ≡ false → join_prev m h to c ≡ m c
unfolding join_prev points
join_prev-other m none to c o = refl
join_prev-other m (some b) to c o = let x : (c == b) ≡ false = ground (arith, o) in rw x refl

pub join_prev-same :
    (m : Conns) (h to : Option ℕ) (d : ℕ)
    → ((join_prev m h to d).has_node ≡ (m d).has_node)
      × ((join_prev m h to d).wheel_slot ≡ (m d).wheel_slot)
      × ((join_prev m h to d).expire_tick ≡ (m d).expire_tick)
unfolding join_prev
join_prev-same m none to d = (refl, refl, refl)
join_prev-same m (some b) to d = (ground arith, ground arith, ground arith)

pub absent_self :
    (m : Conns) (before h : Option ℕ) (c : ℕ) (cs : List ℕ)
    → IsLinked m before h cs
    → absent c (without c cs) ≡ true
unfolding IsLinked absent without
absent_self m before h c [] l = refl
absent_self m before h c (d ∷ ds) (_, _, a, l) =
    ground (arith, a, absent_self m (some d) (m d).next c ds l)

pub keeps_other :
    (c d : ℕ) (cs : List ℕ)
    → (d == c) ≡ false
    → absent d cs ≡ false
    → absent d (without c cs) ≡ false
unfolding absent without
keeps_other c d [] n h = h
keeps_other c d (e ∷ es) n h = ground (arith, n, h, keeps_other c d es n)
