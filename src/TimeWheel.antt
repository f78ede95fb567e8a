-- ===== src/TimeWheel.antt =====
-- src/server/net/time_wheel.c and src/server/net/control_conn.c: the wheel that closes idle control
-- connections. A connection is a number, the address of its record. Its node of the wheel goes by the same
-- number, as a node is made for one connection and stays with it until it is freed. Whether `calloc`
-- gives memory is a Bool; ticks are far below the bounds of long long, and the timeout is not negative.
pub mod Slots
pub mod Unlink
pub mod Wheel
pub mod Refresh
pub mod Tick
mod Tests
use wind_cloud_v.Shared.{
  ℕ, zero, suc, ◌+◌, ◌%◌, Bool, true, false, not, List, [], ◌∷◌, Option, none, some, ◌==◌, leb,
  ◌&&◌, if◌then◌else◌,
}
use wind_cloud_v.Shared.Int.{ℤ, pos, negsuc, pos_part, ltb_ℤ}
use wind_cloud_v.Vfs.Entities.{ClientContext}

abbrev pub time_wheel_slot_count : ℕ
time_wheel_slot_count = 60

-- `prev` and `next` are fields of the node; `has_node` is that wheel_node is not NULL.
pub record ControlConn : Type 0 where
  pub fd : ℤ
  pub ctx : ClientContext
  pub expire_tick : ℕ
  pub wheel_slot : ℤ
  pub has_node : Bool
  pub prev : Option ℕ
  pub next : Option ℕ

pub record TimeWheel : Type 0 where
  pub slots : ℕ → Option ℕ
  pub current_tick : ℕ
  pub timeout_sec : ℕ

abbrev pub Conns : Type 0
Conns = ℕ → ControlConn

unfoldable pub control_conn_init : ℤ → ControlConn
control_conn_init fd = record {
  fd = fd;
  ctx = record { user_id = negsuc 0; current_path = b'/' ∷ []; current_dir_id = 0 };
  expire_tick = 0;
  wheel_slot = negsuc 0;
  has_node = false;
  prev = none;
  next = none;
}

unfoldable pub time_wheel_init : ℕ → TimeWheel
time_wheel_init timeout_sec = record {
  slots = λ i. none;
  current_tick = 0;
  timeout_sec = timeout_sec;
}

abbrev pub put_at {ℓ} : {A : Type ℓ} → (ℕ → A) → ℕ → A → ℕ → A
put_at memory a x b = if b == a then x else memory b

-- `p->next = to` and `p->prev = to`, where p is not NULL.
unfoldable pub join_next : Conns → Option ℕ → Option ℕ → Conns
join_next conns none to = conns
join_next conns (some p) to = put_at conns p (record (conns p) { next = to })

unfoldable pub join_prev : Conns → Option ℕ → Option ℕ → Conns
join_prev conns none to = conns
join_prev conns (some p) to = put_at conns p (record (conns p) { prev = to })

-- The slot's head, where the node has none before it.
unfoldable pub set_head : TimeWheel → Option ℕ → ℕ → Option ℕ → TimeWheel
set_head wheel none slot to = record wheel { slots = put_at wheel.slots slot to }
set_head wheel (some p) slot to = wheel

abbrev pub clear_links : Conns → ℕ → Conns
clear_links conns c = put_at conns c (record (conns c) { prev = none; next = none })

unfoldable pub detach_node : ℕ → TimeWheel × Conns → TimeWheel × Conns
unfolding join_next join_prev set_head
detach_node c (wheel, conns) =
    let conn = conns c in
    if not conn.has_node then (wheel, conns) else (
      set_head wheel conn.prev (pos_part conn.wheel_slot) conn.next,
      clear_links (join_prev (join_next conns conn.prev conn.next) conn.next conn.prev) c,
    )

unfoldable pub time_wheel_add : Bool → ℕ → TimeWheel × Conns → TimeWheel × Conns
unfolding join_prev
time_wheel_add allocates c (wheel, conns) =
    if not (conns c).has_node && not allocates
    then (wheel, conns)
    else (let expire_tick = wheel.current_tick + wheel.timeout_sec in
        let slot = expire_tick % time_wheel_slot_count in
        let placed = put_at conns c (record (conns c) {
          has_node = true;
          expire_tick = expire_tick;
          wheel_slot = pos slot;
          prev = none;
          next = wheel.slots slot;
        }) in
        (
          record wheel { slots = put_at wheel.slots slot (some c) },
          join_prev placed (wheel.slots slot) (some c),
        ))

unfoldable pub time_wheel_refresh : Bool → ℕ → TimeWheel × Conns → TimeWheel × Conns
unfolding detach_node time_wheel_add
time_wheel_refresh allocates c (wheel, conns) =
    if (conns c).has_node && not (ltb_ℤ (conns c).wheel_slot (pos 0))
    then time_wheel_add allocates c (detach_node c (wheel, conns))
    else time_wheel_add allocates c (wheel, conns)

-- The node is freed.
abbrev pub free_node : ℕ → TimeWheel × Conns → TimeWheel × Conns
free_node c (wheel, conns) =
    (wheel, put_at conns c (record (conns c) { has_node = false; wheel_slot = negsuc 0 }))

unfoldable pub time_wheel_remove : ℕ → TimeWheel × Conns → TimeWheel × Conns
unfolding detach_node
time_wheel_remove c (wheel, conns) =
    if not (conns c).has_node then (wheel, conns) else free_node c (detach_node c (wheel, conns))

-- The loop over a slot, on fuel: the connections that the callback is called for, in order. (The
-- callback closes the connection and touches no other node.)
unfoldable pub expire_slot : ℕ → Option ℕ → TimeWheel × Conns → List ℕ × (TimeWheel × Conns)
unfolding detach_node
expire_slot zero _ state = ([], state)
expire_slot (suc fuel) none state = ([], state)
expire_slot (suc fuel) (some c) (wheel, conns) =
    if leb (conns c).expire_tick wheel.current_tick
    then (let rest = expire_slot fuel (conns c).next (free_node c (detach_node c (wheel, conns))) in
        (c ∷ rest.0, rest.1))
    else expire_slot fuel (conns c).next (wheel, conns)

unfoldable pub time_wheel_tick : ℕ → TimeWheel × Conns → List ℕ × (TimeWheel × Conns)
unfolding expire_slot
time_wheel_tick fuel (wheel, conns) =
    let wheel' = record wheel { current_tick = wheel.current_tick + 1 } in
    expire_slot fuel (wheel.slots (wheel'.current_tick % time_wheel_slot_count)) (wheel', conns)
