-- ===== src/Queue.antt =====
-- platform/os/linux/base/os_queue.c: a queue of pointers, linked through the list of klist.h.
pub mod Ops
pub mod Refine
pub mod Memory
pub mod View
use multi_task_app.Prelude.{
  ℕ, ◌==◌, if◌then◌else◌, length, Option, none, some, List, [], ◌∷◌, ◌++◌, map, last_or, drop_last,
}
use multi_task_app.Alloc.{Allocator}

-- A node: struct os_queue_s with its own address. `item` is the field `data`, 0 for NULL.
pub record Node : Type 0 where
  pub addr : ℕ
  pub item : ℕ

-- A queue head: its address, and the nodes that its list links, in order.
pub record Queue : Type 0 where
  pub addr : ℕ
  pub nodes : List Node

-- sizeof(os_queue_t): two list pointers and `data`.
abbrev pub queue_size : ℕ
queue_size = 24

abbrev pub items : List Node → List ℕ
items = map (λ n. n.item)

abbrev pub addrs : List Node → List ℕ
addrs = map (λ n. n.addr)

unfoldable pub os_queue_length : Queue → ℕ
os_queue_length q = length q.nodes

is_empty : List Node → ℕ
is_empty [] = 1
is_empty (n ∷ ns) = 0

unfoldable pub os_queue_empty : Option Queue → ℕ
unfolding is_empty
os_queue_empty none = 0
os_queue_empty (some q) = is_empty q.nodes

module _ (m : Allocator) where
  open m use {Store, malloc, free}

  unfoldable pub os_queue_new : Store → Option Queue × Store
  os_queue_new s =
      let (p, t) = malloc queue_size s in
      if p == 0 then (none, t) else (some (record { addr = p; nodes = [] }), t)

  -- The loop of os_queue_free: each node is unlinked and its data freed. The node itself is not.
  unfoldable pub free_items : List Node → Store → Store
  free_items [] s = s
  free_items (n ∷ ns) s = free_items ns (if n.item == 0 then s else free n.item s)

  unfoldable pub os_queue_free : Option Queue → Store → Store
  unfolding free_items
  os_queue_free none s = s
  os_queue_free (some q) s = free q.addr (free_items q.nodes s)

  unfoldable pub os_queue_push_tail : Option Queue → ℕ → Store → Option Queue × Store
  os_queue_push_tail none d s = (none, s)
  os_queue_push_tail (some q) d s =
      let (p, t) = malloc queue_size s in
      if p == 0
      then (some q, t)
      else (some (record q { nodes = q.nodes ++ record { addr = p; item = d } ∷ [] }), t)

  unfoldable pub os_queue_push_head : Option Queue → ℕ → Store → Option Queue × Store
  os_queue_push_head none d s = (none, s)
  os_queue_push_head (some q) d s =
      let (p, t) = malloc queue_size s in
      if p == 0
      then (some q, t)
      else (some (record q { nodes = record { addr = p; item = d } ∷ q.nodes }), t)

  -- The one round of a loop over the nodes that ends in `break`: it unlinks the node it meets.
  take_head : Queue → List Node → Store → ℕ × Option Queue × Store
  take_head q [] s = (0, some (record q { nodes = [] }), s)
  take_head q (n ∷ ns) s = (n.item, some (record q { nodes = ns }), free n.addr s)

  take_tail : Queue → List Node → Store → ℕ × Option Queue × Store
  take_tail q [] s = (0, some (record q { nodes = [] }), s)
  take_tail q (n ∷ ns) s =
      let node = last_or n ns in
      (node.item, some (record q { nodes = drop_last (n ∷ ns) }), free node.addr s)

  unfoldable pub os_queue_pop_tail : Option Queue → Store → ℕ × Option Queue × Store
  unfolding take_tail
  os_queue_pop_tail none s = (0, none, s)
  os_queue_pop_tail (some q) s = take_tail q q.nodes s

  unfoldable pub os_queue_pop_head : Option Queue → Store → ℕ × Option Queue × Store
  unfolding take_head
  os_queue_pop_head none s = (0, none, s)
  os_queue_pop_head (some q) s = take_head q q.nodes s
