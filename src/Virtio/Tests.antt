-- ===== src/Virtio/Tests.antt =====
-- A chain put on the empty queue of src/virtio_frontend/src/queue.rs, and calls on a new transport.
use l4rerust.Base.{ℕ, ◌%◌, ◌≤◌, ◌<◌, ◌≡◌, refl, ◌⊎◌, List, [], ◌∷◌, length, none, some, get_elem?}
use l4rerust.Virtio.{VirtqDesc, queue_size, new_queue, add}
use l4rerust.Virtio.Chain.{IsQueue, last_slot, new_queue-IsQueue}
use l4rerust.Virtio.Adding.{add_lem}
use l4rerust.Virtio.Transport.{VirtioTransport, new}
use l4rerust.Virtio.Transport.Requests.{
  Request, negotiate, read, write, add_chain, agreed, chains, after_all, IsTransport,
  after_all-IsTransport,
}

abbrev pair : List VirtqDesc
pair =
    record { addr = 4096; len = 16; flags = 1; next = 1 }
    ∷ record { addr = 8192; len = 512; flags = 2; next = 0 }
    ∷ []

add_lem_example :
    ((queue_size < length pair) × (add pair new_queue ≡ (none, new_queue)))
    ⊎ ((length pair ≤ queue_size)
        × (add pair new_queue ≡ (some (new_queue.avail.idx % queue_size), (add pair new_queue).1))
        × IsQueue (add pair new_queue).1
        × ((j : ℕ) → j < length pair → get_elem? (add pair new_queue).1.desc j ≡ get_elem? pair j)
        × (last_slot (add pair new_queue).1 ≡ some 0))
add_lem_example = add_lem pair new_queue new_queue-IsQueue

abbrev calls : List Request
calls = negotiate 14 ∷ read 6 2 ∷ write 2 (1 ∷ 2 ∷ []) ∷ add_chain pair ∷ negotiate 3 ∷ []

after_all-IsTransport_example :
    (t : VirtioTransport) × (after_all calls (new 10 8) ≡ some t)
    × IsTransport 10 8 (agreed 10 calls 0) (chains calls) t
after_all-IsTransport_example = after_all-IsTransport 10 8 calls refl
