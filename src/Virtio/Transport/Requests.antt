-- ===== src/Virtio/Transport/Requests.antt =====
-- Sequences of calls on a `VirtioTransport` of src/virtio_frontend/src/transport.rs.
use l4rerust.Base.{
  ℕ, ◌+◌, ◌/◌, ◌%◌, ◌^◌, ◌≤◌, ◌≡◌, refl, ap, ◌∙◌, bit_and, Bool-cases, if◌then◌else◌, sym, subst,
  List, [], ◌∷◌, length, Option, none, some, Bool, true, ◌&&◌, leb, inl, inr, length-replicate,
  arith,
}
use l4rerust.Virtio.{VirtqDesc, VirtQueue, add, publish, queue_size}
use l4rerust.Virtio.Chain.{IsQueue, new_queue-IsQueue}
use l4rerust.Virtio.Adding.{avail-set_descs, add_lem}
use l4rerust.Virtio.Transport.{
  VirtioTransport, new, negotiate_features, read_config, write_config, virtio_queue_add,
}
use l4rerust.Virtio.Transport.Config.{write_config_lem, negotiate_features_lem}

pub data Request : Type 0 where
  negotiate : ℕ → Request
  read : ℕ → ℕ → Request
  write : ℕ → List ℕ → Request
  add_chain : List VirtqDesc → Request

abbrev pub after : Request → VirtioTransport → Option VirtioTransport
after (negotiate supported) t = some (negotiate_features supported t).1
after (read offset len) t = elim (read_config offset len t) [ none ↦ none | some bytes ↦ some t ]
after (write offset bytes) t = write_config offset bytes t
after (add_chain descs) t = some (virtio_queue_add descs t).1

abbrev pub after_all : List Request → VirtioTransport → Option VirtioTransport
after_all [] t = some t
after_all (r ∷ rs) t = elim (after r t) [ none ↦ none | some t' ↦ after_all rs t' ]

-- The reads and writes of a sequence reach at most to the end of a configuration space of `n` bytes.
abbrev pub fits : ℕ → Request → Bool
fits n (negotiate supported) = true
fits n (read offset len) = leb (offset + len) n
fits n (write offset bytes) = leb (offset + length bytes) n
fits n (add_chain descs) = true

abbrev pub all_fit : ℕ → List Request → Bool
all_fit n [] = true
all_fit n (r ∷ rs) = fits n r && all_fit n rs

-- The features agreed on after the calls: those of the last negotiation, if there was one.
abbrev pub agreed : ℕ → List Request → ℕ → ℕ
agreed device [] driver = driver
agreed device (negotiate supported ∷ rs) driver = agreed device rs (bit_and device supported)
agreed device (read offset len ∷ rs) driver = agreed device rs driver
agreed device (write offset bytes ∷ rs) driver = agreed device rs driver
agreed device (add_chain descs ∷ rs) driver = agreed device rs driver

-- The number of chains that fit into the descriptor table
abbrev pub chains : List Request → ℕ
chains [] = 0
chains (negotiate supported ∷ rs) = chains rs
chains (read offset len ∷ rs) = chains rs
chains (write offset bytes ∷ rs) = chains rs
chains (add_chain descs ∷ rs) = (if leb (length descs) queue_size then 1 else 0) + chains rs

-- A transport with the features `device`, of which `driver` are agreed on, `n` bytes of configuration
-- space, and `added` chains published.
pub record IsTransport (device n driver added : ℕ) (t : VirtioTransport) : Type 0 where
  pub queue_ok : IsQueue t.queue
  pub published : t.queue.avail.idx ≡ added % 2 ^ 16
  pub driver_set : t.driver_features ≡ driver
  pub size : length t.config ≡ n
  pub device_kept : t.device_features ≡ device
  pub offered : (k : ℕ) → t.driver_features / 2 ^ k % 2 ≤ device / 2 ^ k % 2

add-IsQueue : (descs : List VirtqDesc) (q : VirtQueue) → IsQueue q → IsQueue (add descs q).1
add-IsQueue descs q v = elim (add_lem descs q v) [
  | inl (long, e) ↦ subst (λ r. IsQueue r.1) (sym e) v
  | inr (h, e, ok, table, slot) ↦ ok
]

-- A chain that fits moves the counter, one that does not leaves it.
idx-add :
    (descs : List VirtqDesc) (q : VirtQueue) (n : ℕ)
    → q.avail.idx ≡ n % 2 ^ 16
    → (add descs q).1.avail.idx ≡ ((if leb (length descs) queue_size then 1 else 0) + n) % 2 ^ 16
unfolding add publish
idx-add descs q n e =
    let same = avail-set_descs 0 descs q in
    elim (Bool-cases (leb (length descs) queue_size)) [
      | inl fits ↦ ground (arith, same)
      | inr long ↦ ground arith
    ]

-- Another count of the same value
recount :
    {device n driver a b : ℕ} {t : VirtioTransport}
    → a ≡ b
    → IsTransport device n driver a t
    → IsTransport device n driver b t
recount {device} {n} {driver} {t = t} e v = subst (λ c. IsTransport device n driver c t) e v

-- The state after a call, from the state before it.
abbrev Next : ℕ → ℕ → Request → ℕ → ℕ → VirtioTransport → Type 0
Next device n r driver added t =
    IsTransport device n (agreed device (r ∷ []) driver) (chains (r ∷ []) + added) t

after-IsTransport :
    (device n driver added : ℕ) (r : Request) (t : VirtioTransport)
    → IsTransport device n driver added t
    → fits n r ≡ true
    → (t' : VirtioTransport) × (after r t ≡ some t') × Next device n r driver added t'
unfolding read_config
after-IsTransport device n driver added (negotiate supported) t v h = (
  (negotiate_features supported t).1,
  refl,
  record {
    queue_ok = v.queue_ok;
    published = v.published ∙ ap (λ k. k % 2 ^ 16) (omega arith);
    driver_set = ap (λ d. bit_and d supported) v.device_kept;
    size = v.size;
    device_kept = v.device_kept;
    offered = λ k.
        let both = (negotiate_features_lem supported t k).1 in
        let same = ap (λ d. d / 2 ^ k % 2) v.device_kept in ground (arith, both, same);
  },
)
after-IsTransport device n driver added (read offset len) t v h =
    let size = v.size in (t, ground arith, recount (omega arith) v)
after-IsTransport device n driver added (write offset bytes) t v h =
    elim (write_config_lem offset bytes t) [
      | inl (long, e) ↦ absurd (let size = v.size in ground arith)
      | inr (le, t', e, written) ↦ (
        t',
        e,
        record {
          queue_ok = subst IsQueue (sym written.same_queue) v.queue_ok;
          published =
              ap (λ q. q.avail.idx) written.same_queue
              ∙ v.published
              ∙ ap (λ k. k % 2 ^ 16) (omega arith);
          driver_set = written.same_driver ∙ v.driver_set;
          size = written.size ∙ v.size;
          device_kept = written.same_device ∙ v.device_kept;
          offered = λ k.
              subst (λ d. d / 2 ^ k % 2 ≤ device / 2 ^ k % 2) (sym written.same_driver)
                (v.offered k);
        },
      )
    ]
after-IsTransport device n driver added (add_chain descs) t v h = (
  (virtio_queue_add descs t).1,
  refl,
  record {
    queue_ok = add-IsQueue descs t.queue v.queue_ok;
    published = idx-add descs t.queue added v.published ∙ ap (λ k. k % 2 ^ 16) (omega arith);
    driver_set = v.driver_set;
    size = v.size;
    device_kept = v.device_kept;
    offered = v.offered;
  },
)

agreed-cons :
    (device : ℕ) (r : Request) (rs : List Request) (driver : ℕ)
    → agreed device (r ∷ rs) driver ≡ agreed device rs (agreed device (r ∷ []) driver)
agreed-cons device (negotiate supported) rs driver = refl
agreed-cons device (read offset len) rs driver = refl
agreed-cons device (write offset bytes) rs driver = refl
agreed-cons device (add_chain descs) rs driver = refl

chains-cons :
    (r : Request) (rs : List Request) (added : ℕ)
    → chains (r ∷ rs) + added ≡ chains rs + (chains (r ∷ []) + added)
chains-cons (negotiate supported) rs added = omega arith
chains-cons (read offset len) rs added = omega arith
chains-cons (write offset bytes) rs added = omega arith
chains-cons (add_chain descs) rs added = omega arith

all-IsTransport :
    (device n driver added : ℕ) (rs : List Request) (t : VirtioTransport)
    → IsTransport device n driver added t
    → all_fit n rs ≡ true
    → (t' : VirtioTransport) × (after_all rs t ≡ some t')
      × IsTransport device n (agreed device rs driver) (chains rs + added) t'
all-IsTransport device n driver added [] t v h = (t, refl, recount (omega arith) v)
all-IsTransport device n driver added (r ∷ rs) t v h =
    let (t₁, e₁, v₁) = after-IsTransport device n driver added r t v (ground (arith, h)) in
    let (t', e, v') =
      all-IsTransport device n (agreed device (r ∷ []) driver) (chains (r ∷ []) + added) rs t₁ v₁
        (ground (arith, h)) in
    (
      t',
      rw (e₁, after_all) e,
      subst (λ d. IsTransport device n d (chains (r ∷ rs) + added) t')
          (sym (agreed-cons device r rs driver)) (recount (sym (chains-cons r rs added)) v'),
    )

-- Any calls on a new transport, in an order of any kind, of which the reads and writes reach at most
-- to the end of the configuration space: none panics, the queue stays well-formed, its counter is the
-- number of chains that fitted, modulo 2^16, the space keeps its size, and the features agreed on are
-- those of the device and of the last negotiation, and none before one.
pub after_all-IsTransport :
    (device n : ℕ) (rs : List Request)
    → all_fit n rs ≡ true
    → (t : VirtioTransport) × (after_all rs (new device n) ≡ some t)
      × IsTransport device n (agreed device rs 0) (chains rs) t
after_all-IsTransport device n rs h =
    let (t, e, v) =
      all-IsTransport device n 0 0 rs (new device n)
        (record {
          queue_ok = new_queue-IsQueue;
          published = refl;
          driver_set = refl;
          size = length-replicate n 0;
          device_kept = refl;
          offered = λ k. omega arith;
        })
        h in
    (t, e, recount (omega arith) v)
