-- ===== src/FsServer/Contract.antt =====
-- The chain of descriptors that `transfer` of src/fs_server/src/virtio.rs offers, read as a device
-- reads it, and what the code relies on in its device: one that reads the flags as the comments of
-- that file number them, which is not how a virtio device does, and that works without being notified.
use l4rerust.Base.{
  ℕ, ◌<◌, ◌≡◌, Bool, true, false, some, [], ◌∷◌, List, length, get_elem?, ◌==◌, if◌then◌else◌,
  arith, length-set, get_elem?-set_self, get_elem?-set_ne, ap, ◌∙◌,
}
use mathlib.Core.Option.{map}
use l4rerust.Virtio.{VirtqDesc, VirtQueue, set_desc, queue_size}
use l4rerust.Virtio.Chain.{
  IsQueue, set_desc-IsQueue, publish-IsQueue, desc-publish, last_slot, last_slot-publish,
}
use l4rerust.Virtio.Offered.{
  commented, standard, Segment, segments, segments_at, offered, offered_at,
}
use l4rerust.FsServer.Blk.{Device, header_desc, data_desc, status_desc, submit}

module _ (dev : Device) where
  -- A request of a block device: a header of 16 bytes that the device reads, `len` bytes of data that
  -- it writes if the request is a read, and a status byte that it writes.
  abbrev pub request : ℕ → Bool → List Segment
  request len reads =
      record { addr = dev.header_addr; len = 16; device_writes = false }
      ∷ record { addr = dev.buf_addr; len = len; device_writes = reads }
      ∷ record { addr = dev.status_addr; len = 1; device_writes = true }
      ∷ []

  -- The newest chain is such a request, to a device that reads the flags as the comments number them.
  abbrev pub Announces : ℕ → Bool → VirtQueue → Type 0
  Announces len reads q = offered commented q ≡ some (request len reads)

  -- `sectors w s` is what sector `s` holds. A request that the queue announces, for a sector of the
  -- device and 512 bytes, succeeds: a read gives the sector and changes none, a write changes that
  -- sector alone.
  pub record Contract : Type 0 where
    pub capacity : ℕ
    pub sectors : dev.World → ℕ → List ℕ
    pub length-sectors : (w : dev.World) (s : ℕ) → length (sectors w s) ≡ 512
    pub read_status :
        (q : VirtQueue) (s : ℕ) (buf : List ℕ) (w : dev.World)
        → Announces 512 true q
        → s < capacity
        → length buf ≡ 512
        → (dev.complete q (record { req_type = 0; reserved = 0; sector = s }) buf w).0 ≡ 0
    pub read_bytes :
        (q : VirtQueue) (s : ℕ) (buf : List ℕ) (w : dev.World)
        → Announces 512 true q
        → s < capacity
        → length buf ≡ 512
        → (dev.complete q (record { req_type = 0; reserved = 0; sector = s }) buf w).1 ≡ sectors w s
    pub read_keeps :
        (q : VirtQueue) (s t : ℕ) (buf : List ℕ) (w : dev.World)
        → Announces 512 true q
        → s < capacity
        → length buf ≡ 512
        → sectors (dev.complete q (record { req_type = 0; reserved = 0; sector = s }) buf w).2 t
          ≡ sectors w t
    pub write_status :
        (q : VirtQueue) (s : ℕ) (buf : List ℕ) (w : dev.World)
        → Announces 512 false q
        → s < capacity
        → length buf ≡ 512
        → (dev.complete q (record { req_type = 1; reserved = 0; sector = s }) buf w).0 ≡ 0
    pub write_sectors :
        (q : VirtQueue) (s t : ℕ) (buf : List ℕ) (w : dev.World)
        → Announces 512 false q
        → s < capacity
        → length buf ≡ 512
        → sectors (dev.complete q (record { req_type = 1; reserved = 0; sector = s }) buf w).2 t
          ≡ (if s == t then buf else sectors w t)

  -- The descriptors after a submission
  record Table (len : ℕ) (reads : Bool) (ds : List VirtqDesc) : Type 0 where
    header : get_elem? ds 0 ≡ some (header_desc dev)
    payload : get_elem? ds 1 ≡ some (data_desc dev len reads)
    status : get_elem? ds 2 ≡ some (status_desc dev)

  pub submit-IsQueue :
      (len : ℕ) (reads : Bool) (q : VirtQueue) → IsQueue q → IsQueue (submit dev len reads q)
  unfolding submit
  submit-IsQueue len reads q v =
      publish-IsQueue _ (set_desc-IsQueue 2 _ _ (set_desc-IsQueue 1 _ _ (set_desc-IsQueue 0 _ q v)))

  submit-last_slot :
      (len : ℕ) (reads : Bool) (q : VirtQueue)
      → IsQueue q
      → last_slot (submit dev len reads q) ≡ some 0
  unfolding submit
  submit-last_slot len reads q v =
      last_slot-publish _
        (set_desc-IsQueue 2 _ _ (set_desc-IsQueue 1 _ _ (set_desc-IsQueue 0 _ q v)))

  submit-Table :
      (len : ℕ) (reads : Bool) (q : VirtQueue)
      → IsQueue q
      → Table len reads (submit dev len reads q).desc
  unfolding submit
  submit-Table len reads q v =
      let d = set_desc 0 (header_desc dev) q in
      let e = set_desc 1 (data_desc dev len reads) d in
      let f = set_desc 2 (status_desc dev) e in
      record {
        header =
            ap (λ ds. get_elem? ds 0) (desc-publish f)
            ∙ get_elem?-set_ne e.desc {i = 2} {j = 0} _ (omega arith)
            ∙ get_elem?-set_ne d.desc {i = 1} {j = 0} _ (omega arith)
            ∙ get_elem?-set_self q.desc 0 _ (omega (arith, v.descs));
        payload =
            ap (λ ds. get_elem? ds 1) (desc-publish f)
            ∙ get_elem?-set_ne e.desc {i = 2} {j = 1} _ (omega arith)
            ∙ get_elem?-set_self d.desc 1 _
                (omega (arith, length-set q.desc 0 (header_desc dev), v.descs));
        status =
            ap (λ ds. get_elem? ds 2) (desc-publish f)
            ∙ get_elem?-set_self e.desc 2 _ (
                omega (
                  arith,
                  length-set d.desc 1 (data_desc dev len reads),
                  length-set q.desc 0 (header_desc dev),
                  v.descs,
                ));
      }

  Table-commented :
      (len : ℕ) (reads : Bool) (ds : List VirtqDesc)
      → Table len reads ds
      → segments commented queue_size 0 ds ≡ some (request len reads)
  Table-commented len true ds t =
      segments_at commented 7 0 ds _ t.header
      ∙ ap (map (λ others. _ ∷ others)) (
          segments_at commented 6 1 ds _ t.payload
          ∙ ap (map (λ others. _ ∷ others)) (segments_at commented 5 2 ds _ t.status))
  Table-commented len false ds t =
      segments_at commented 7 0 ds _ t.header
      ∙ ap (map (λ others. _ ∷ others)) (
          segments_at commented 6 1 ds _ t.payload
          ∙ ap (map (λ others. _ ∷ others)) (segments_at commented 5 2 ds _ t.status))

  Table-standard :
      (len : ℕ) (reads : Bool) (ds : List VirtqDesc)
      → Table len reads ds
      → segments standard queue_size 0 ds
        ≡ some (record { addr = dev.header_addr; len = 16; device_writes = true } ∷ [])
  Table-standard len reads ds t = segments_at standard 7 0 ds _ t.header

  -- Whatever a well-formed queue held, the newest chain after `submit` is the whole request, to a
  -- device that reads the flags as the comments of `transfer` number them; to one that reads them as
  -- the virtio standard does, it is the header alone, 16 bytes for the device to write.
  pub submit-offered :
      (len : ℕ) (reads : Bool) (q : VirtQueue)
      → IsQueue q
      → Announces len reads (submit dev len reads q)
        × (offered standard (submit dev len reads q)
            ≡ some (record { addr = dev.header_addr; len = 16; device_writes = true } ∷ []))
  submit-offered len reads q v =
      let at = submit-last_slot len reads q v in
      let table = submit-Table len reads q v in
      (
        offered_at commented _ at ∙ Table-commented len reads _ table,
        offered_at standard _ at ∙ Table-standard len reads _ table,
      )
