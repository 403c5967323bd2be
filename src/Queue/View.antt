-- ===== src/Queue/View.antt =====
-- What the callers of os_queue.c can see of a queue.
use std.Univalence.{iso_to_path}
use mathlib.Core.Quot
use mathlib.Core.Quot.{Quot, Quot-set}
use multi_task_app.Prelude.{
  ℕ, zero, suc, ◌≡◌, ◌↔◌, refl, sym, ap, ◌∙◌, length, length-map, map, some, List, [], ◌∷◌,
}
use multi_task_app.Alloc.{Allocator}
use multi_task_app.Queue.{Queue, Node, items, os_queue_length}
use multi_task_app.Queue.Ops.{Op, pop_head, run, spec_call, spec_run}
use multi_task_app.Queue.Refine.{run-refines}

-- A queue that holds these items, whatever its addresses.
abbrev node_of : ℕ → Node
node_of d = record { addr = 1; item = d }

abbrev holding : List ℕ → Queue
holding xs = record { addr = 1; nodes = map node_of xs }

items-holding : (xs : List ℕ) → items (map node_of xs) ≡ xs
items-holding [] = refl
items-holding (x ∷ xs) = ap (λ l. x ∷ l) (items-holding xs)

abbrev pub pops : ℕ → List Op
pops zero = []
pops (suc n) = pop_head ∷ pops n

-- As many pops as there are items give the items.
pops_lem : (xs : List ℕ) → (spec_run (pops (length xs)) xs).0 ≡ xs
unfolding spec_run spec_call
pops_lem [] = refl
pops_lem (x ∷ xs) = ap (λ l. x ∷ l) (pops_lem xs)

module _ (m : Allocator) where
  open m use {Store}

  -- No calls tell the two queues apart: they have the same length, and any sequence of calls
  -- returns the same from both.
  abbrev pub Alike : Queue → Queue → Type 0
  Alike q q' =
      (os_queue_length q ≡ os_queue_length q')
      × ((os : List Op) (s s' : Store) → (run m os (some q) s).0 ≡ (run m os (some q') s').0)

  items-of_Alike : Store → (q q' : Queue) → Alike q q' → items q.nodes ≡ items q'.nodes
  unfolding os_queue_length
  items-of_Alike s q q' (same_length, same) =
      let xs = items q.nodes in
      let ys = items q'.nodes in
      let lengths : length xs ≡ length ys =
        length-map (λ n. n.item) q.nodes ∙ same_length ∙ sym (length-map (λ n. n.item) q'.nodes) in
      let os = pops (length xs) in
      sym (pops_lem xs)
      ∙ sym (run-refines m os (some q) xs s refl).0
      ∙ same os s s
      ∙ (run-refines m os (some q') ys s refl).0
      ∙ ap (λ n. (spec_run (pops n) ys).0) lengths
      ∙ pops_lem ys

  Alike-of_items : (q q' : Queue) → items q.nodes ≡ items q'.nodes → Alike q q'
  unfolding os_queue_length
  Alike-of_items q q' e = (
    sym (length-map (λ n. n.item) q.nodes) ∙ ap length e ∙ length-map (λ n. n.item) q'.nodes,
    λ os s s'.
        (run-refines m os (some q) (items q.nodes) s refl).0
        ∙ ap (λ xs. (spec_run os xs).0) e
        ∙ sym (run-refines m os (some q') (items q'.nodes) s' refl).0,
  )

  -- A queue up to what its callers can see.
  abbrev pub View : Type 0
  View = Quot Alike

  lists_set : IsSet (List ℕ)
  lists_set = hlevel

  -- What a view shows, from its front to its end: that of a queue shows the queue's items.
  seen : Store → View → List ℕ
  seen s = Quot.lift lists_set (λ q. items q.nodes) (items-of_Alike s)

  seen-mk : (s : Store) (v : View) → Quot.mk (holding (seen s v)) ≡ v
  unfolding seen
  seen-mk s =
      Quot.ind (λ v. Quot-set _ _)
        (λ q.
          Quot.sound (Alike-of_items (holding (items q.nodes)) q (items-holding (items q.nodes))))

  -- Queues up to the calls that could tell them apart are the lists of numbers.
  view_of_queues : Store → View ≡ List ℕ
  unfolding seen
  view_of_queues s = iso_to_path (record {
    fun = seen s;
    inv = λ xs. Quot.mk (holding xs);
    rinv = items-holding;
    linv = seen-mk s;
  })

  -- What the callers of a queue can find out by calls is its items in order, all of them and
  -- nothing more: as many calls of os_queue_pop_head as there are items return the items from the
  -- front to the end; and two queues of the same length return the same from every sequence of
  -- calls, in whatever memory, exactly where their items are the same. So no call shows an address.
  pub calls_show_items :
      (s : Store) (q q' : Queue)
      → ((run m (pops (os_queue_length q)) (some q) s).0 ≡ items q.nodes)
        × (Alike q q' ↔ (items q.nodes ≡ items q'.nodes))
  unfolding os_queue_length
  calls_show_items s q q' = (
    ap (λ n. (run m (pops n) (some q) s).0) (sym (length-map (λ n. n.item) q.nodes))
        ∙ (run-refines m (pops (length (items q.nodes))) (some q) (items q.nodes) s refl).0
        ∙ pops_lem (items q.nodes),
    (items-of_Alike s q q', Alike-of_items q q'),
  )
