-- ===== src/Ticket/Table.antt =====
-- The table seen as a finite map from live ticket ids to their expiry.
use wind_cloud_v.Shared.{
  ℕ, zero, suc, ◌+◌, ◌<◌, ◌≡◌, refl, ◌⊎◌, inl, inr, true, false, ◌&&◌, [], ◌∷◌, Option, none, some,
  arith, leb, if◌then◌else◌, length, set, Option-cases,
}
use wind_cloud_v.Shared.Text.{Bytes, str_eq, str_eq_iff, truncated_fits}
use wind_cloud_v.Ticket.{
  Table, TransferTicketNode, cleanup_expired_tickets, alloc_ticket_slot, register_ticket,
  consume_slot, transfer_ticket_expire_seconds, transfer_ticket_id_len,
}

-- The expiry of a live ticket.
unfoldable pub live : Bytes → Table → Option ℕ
live id [] = none
live id (n ∷ table) =
    if n.active && str_eq n.ticket_id id then some n.expire_time else live id table

-- No id is live twice.
abbrev pub IsDistinct : Table → Type 0
IsDistinct [] = Unit {0}
IsDistinct (n ∷ table) = (n.active ≡ true → live n.ticket_id table ≡ none) × IsDistinct table

-- The expiry, if it is still to come.
abbrev pub unexpired : ℕ → Option ℕ → Option ℕ
unexpired now none = none
unexpired now (some e) = if leb e now then none else some e

pub live-cleanup_none :
    (now : ℕ) (id : Bytes) (table : Table)
    → live id table ≡ none
    → live id (cleanup_expired_tickets now table) ≡ none
unfolding live cleanup_expired_tickets
live-cleanup_none now id [] h = refl
live-cleanup_none now id (n ∷ table) h = ground (arith, live-cleanup_none now id table)

pub live-cleanup :
    (now : ℕ) (id : Bytes) (table : Table)
    → IsDistinct table
    → live id (cleanup_expired_tickets now table) ≡ unexpired now (live id table)
unfolding live cleanup_expired_tickets
live-cleanup now id [] d = refl
live-cleanup now id (n ∷ table) d = ground (
  arith,
  live-cleanup now id table d.1,
  live-cleanup_none now id table,
  str_eq_iff n.ticket_id id,
)

pub cleanup-IsDistinct :
    (now : ℕ) (table : Table) → IsDistinct table → IsDistinct (cleanup_expired_tickets now table)
unfolding cleanup_expired_tickets
cleanup-IsDistinct now [] d = tt
cleanup-IsDistinct now (n ∷ table) d =
    (ground (arith, live-cleanup_none now n.ticket_id table), cleanup-IsDistinct now table d.1)

pub live-consume_slot :
    (id j : Bytes) (table : Table)
    → IsDistinct table
    → live j (consume_slot id table).0 ≡ (if str_eq id j then none else live j table)
unfolding live consume_slot
live-consume_slot id j [] d = ground arith
live-consume_slot id j (n ∷ table) d = ground (
  arith,
  live-consume_slot id j table d.1,
  str_eq_iff n.ticket_id id,
  str_eq_iff id j,
  str_eq_iff n.ticket_id j,
)

pub live-consume_slot-none :
    (id j : Bytes) (table : Table) → live j table ≡ none → live j (consume_slot id table).0 ≡ none
unfolding live consume_slot
live-consume_slot-none id j [] h = refl
live-consume_slot-none id j (n ∷ table) h = ground (arith, live-consume_slot-none id j table)

pub consume_slot-IsDistinct :
    (id : Bytes) (table : Table) → IsDistinct table → IsDistinct (consume_slot id table).0
unfolding consume_slot
consume_slot-IsDistinct id [] d = tt
consume_slot-IsDistinct id (n ∷ table) d =
    ground
      (arith, live-consume_slot-none id n.ticket_id table, consume_slot-IsDistinct id table d.1)

-- The search finds what is live.
pub consume_slot_found :
    (id : Bytes) (table : Table)
    → (consume_slot id table).1 ≡ elim (live id table) [ none ↦ false | some _ ↦ true ]
unfolding live consume_slot
consume_slot_found id [] = refl
consume_slot_found id (n ∷ table) = ground (arith, consume_slot_found id table)

-- A new node in the slot found.
module _ (node : TransferTicketNode) (busy : node.active ≡ true) where
  live-set_slot :
      (table : Table) (slot : ℕ) (j : Bytes)
      → alloc_ticket_slot table ≡ some slot
      → live node.ticket_id table ≡ none
      → live j (set table slot node)
        ≡ (if str_eq node.ticket_id j then some node.expire_time else live j table)
  unfolding live alloc_ticket_slot
  live-set_slot [] slot j e f = cc
  live-set_slot (n ∷ table) zero j e f = ground arith
  live-set_slot (n ∷ table) (suc slot) j e f = ground (
    arith,
    live-set_slot table slot j,
    str_eq_iff n.ticket_id node.ticket_id,
    str_eq_iff n.ticket_id j,
    str_eq_iff node.ticket_id j,
  )

  set_slot-IsDistinct :
      (table : Table) (slot : ℕ)
      → alloc_ticket_slot table ≡ some slot
      → live node.ticket_id table ≡ none
      → IsDistinct table
      → IsDistinct (set table slot node)
  unfolding live alloc_ticket_slot
  set_slot-IsDistinct [] slot e f d = tt
  set_slot-IsDistinct (n ∷ table) zero e f d = ground arith
  set_slot-IsDistinct (n ∷ table) (suc slot) e f d = ground (
    arith,
    set_slot-IsDistinct table slot,
    live-set_slot table slot n.ticket_id,
    str_eq_iff n.ticket_id node.ticket_id,
    str_eq_iff node.ticket_id n.ticket_id,
  )

-- How many nodes are free.
pub free_count : Table → ℕ
free_count [] = 0
free_count (n ∷ table) = if n.active then free_count table else suc (free_count table)

alloc_ticket_slot-none : (table : Table) → alloc_ticket_slot table ≡ none → free_count table ≡ 0
unfolding alloc_ticket_slot free_count
alloc_ticket_slot-none [] e = refl
alloc_ticket_slot-none (n ∷ table) e = ground (arith, alloc_ticket_slot-none table)

alloc_ticket_slot-some :
    (table : Table) (slot : ℕ) → alloc_ticket_slot table ≡ some slot → 0 < free_count table
unfolding alloc_ticket_slot free_count
alloc_ticket_slot-some [] slot e = cc
alloc_ticket_slot-some (n ∷ table) zero e = ground arith
alloc_ticket_slot-some (n ∷ table) (suc slot) e = ground (arith, alloc_ticket_slot-some table slot)

abbrev pub new_node : ℕ → Bytes → TransferTicketNode
new_node now id = record {
  active = true;
  ticket_id = id;
  expire_time = now + transfer_ticket_expire_seconds;
}

register_ticket-full :
    (now : ℕ) (id : Bytes) (table : Table)
    → alloc_ticket_slot (cleanup_expired_tickets now table) ≡ none
    → register_ticket now id table ≡ (cleanup_expired_tickets now table, false)
unfolding register_ticket
register_ticket-full now id table e = ground arith

register_ticket-slot :
    (now : ℕ) (id : Bytes) (table : Table) (slot : ℕ)
    → length id < transfer_ticket_id_len
    → alloc_ticket_slot (cleanup_expired_tickets now table) ≡ some slot
    → register_ticket now id table
      ≡ (set (cleanup_expired_tickets now table) slot (new_node now id), true)
unfolding register_ticket
register_ticket-slot now id table slot l e =
    ground (arith, truncated_fits transfer_ticket_id_len id)

-- After register_ticket the new id is live for 30 seconds and every other ticket is as it was, less
-- the expired ones. It is refused only when no node is free after the expired ones are cleared, and
-- then only the expired ones are gone. (The new id is not live before, and fits its field.)
pub live-register_ticket :
    (now : ℕ) (id j : Bytes) (table : Table)
    → IsDistinct table
    → live id table ≡ none
    → length id < transfer_ticket_id_len
    → let r = register_ticket now id table in
      IsDistinct r.0
      × (((r.1 ≡ true)
            × (live j r.0 ≡ (
                if str_eq id j
                then some (now + transfer_ticket_expire_seconds)
                else unexpired now (live j table))))
          ⊎ ((r.1 ≡ false)
              × (free_count (cleanup_expired_tickets now table) ≡ 0)
              × (live j r.0 ≡ unexpired now (live j table))))
live-register_ticket now id j table d f l =
    let clean = cleanup_expired_tickets now table in
    let d' : IsDistinct clean = cleanup-IsDistinct now table d in
    let f' : live id clean ≡ none = live-cleanup_none now id table f in
    elim (Option-cases (alloc_ticket_slot clean)) [
      | inl e ↦
          rw (register_ticket-full now id table e)
            (d', inr (refl, alloc_ticket_slot-none clean e, live-cleanup now j table d))
      | inr (slot, e) ↦ rw (register_ticket-slot now id table slot l e) (
        set_slot-IsDistinct (new_node now id) refl clean slot e f' d',
        inl (
          refl,
          rw (← live-cleanup now j table d)
              (live-set_slot (new_node now id) refl clean slot j e f'),
        ),
      )
    ]

live-set_slot_none :
    (table : Table) (slot : ℕ) (node : TransferTicketNode) (j : Bytes)
    → str_eq node.ticket_id j ≡ false
    → live j table ≡ none
    → live j (set table slot node) ≡ none
unfolding live
live-set_slot_none [] slot node j h e = refl
live-set_slot_none (n ∷ table) zero node j h e = ground arith
live-set_slot_none (n ∷ table) (suc slot) node j h e =
    ground (arith, live-set_slot_none table slot node j)

-- A ticket that is not live does not become so when another one is registered.
pub live-register_ticket-none :
    (now : ℕ) (id j : Bytes) (table : Table)
    → length id < transfer_ticket_id_len
    → str_eq id j ≡ false
    → live j table ≡ none
    → live j (register_ticket now id table).0 ≡ none
live-register_ticket-none now id j table l h e =
    let gone = live-cleanup_none now j table e in
    elim (Option-cases (alloc_ticket_slot (cleanup_expired_tickets now table))) [
      | inl full ↦ rw (register_ticket-full now id table full) gone
      | inr (slot, f) ↦
          rw (register_ticket-slot now id table slot l f)
            (live-set_slot_none (cleanup_expired_tickets now table) slot (new_node now id) j h gone)
    ]
