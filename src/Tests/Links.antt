-- ===== src/Tests/Links.antt =====
-- Lists of kernel/list/list.c in a small memory: the head is 100, the nodes 1, 2, 3, and 4 stands alone.
use risc_v_qemu_kernel.Prelude.{
  ◌≡◌, refl, true, [], ◌∷◌, some, leb, ltb, ◌==◌, if◌then◌else◌, arith,
}
use risc_v_qemu_kernel.Links.{Links, enqueue, dequeue, del_node, visit, is_in_queue, list_insert}
use risc_v_qemu_kernel.Links.Ring.{IsQueue}
use risc_v_qemu_kernel.Links.Queue.{enqueue-IsQueue, del_node-IsQueue, dequeue-front}
use risc_v_qemu_kernel.Links.Walk.{is_in_queue_lem, visit_lem, first_match}
use risc_v_qemu_kernel.Links.Insert.{list_insert_lem, insert_ordered}

abbrev three : Links
three = record {
  next = λ p.
      if p == 100 then 1 else if p == 1 then 2 else if p == 2 then 3 else if p == 3 then 100 else p;
  prev = λ p.
      if p == 100 then 3 else if p == 1 then 100 else if p == 2 then 1 else if p == 3 then 2 else p;
}

three-IsQueue : IsQueue three 100 (1 ∷ 2 ∷ 3 ∷ [])
three-IsQueue = record { nodes = refl; ring = ground arith }

enqueue-IsQueue_holds : IsQueue (enqueue 4 100 three) 100 (1 ∷ 2 ∷ 3 ∷ 4 ∷ [])
enqueue-IsQueue_holds = enqueue-IsQueue three 4 100 (1 ∷ 2 ∷ 3 ∷ []) three-IsQueue refl

del_node-IsQueue_holds : IsQueue (del_node 2 three) 100 (1 ∷ 3 ∷ [])
del_node-IsQueue_holds = del_node-IsQueue three 2 100 (1 ∷ []) (3 ∷ []) three-IsQueue

dequeue-front_holds :
    let (front, m) = dequeue 100 three in
    (front ≡ some 1) × IsQueue m 100 (2 ∷ 3 ∷ []) × (m.next 1 ≡ 1) × (m.prev 1 ≡ 1)
dequeue-front_holds = dequeue-front three 100 1 (2 ∷ 3 ∷ []) three-IsQueue

is_in_queue_lem_holds : is_in_queue 9 2 100 three ≡ (true, true)
is_in_queue_lem_holds = is_in_queue_lem 9 three 2 100 (1 ∷ 2 ∷ 3 ∷ []) three-IsQueue (omega arith)

visit_lem_holds :
    let (found, ended, m) = visit 9 100 (λ n. ltb 1 n) three in
    (found ≡ some 2) × (ended ≡ true) × IsQueue m 100 (1 ∷ 3 ∷ [])
unfolding visit first_match
visit_lem_holds = visit_lem 9 three 100 (1 ∷ 2 ∷ 3 ∷ []) (λ n. ltb 1 n) three-IsQueue (omega arith)

list_insert_lem_example :
    let (m, ended) = list_insert 9 4 100 (λ a b. leb b 2) three in
    IsQueue m 100 (4 ∷ 1 ∷ 2 ∷ 3 ∷ []) × (ended ≡ true)
unfolding insert_ordered
list_insert_lem_example =
    list_insert_lem 9 three 4 100 (1 ∷ 2 ∷ 3 ∷ []) (λ a b. leb b 2) three-IsQueue refl (omega arith)
