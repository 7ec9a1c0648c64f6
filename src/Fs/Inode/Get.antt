-- ===== src/Fs/Inode/Get.antt =====
-- What `i_get` (fs/inode.c) returns, and what it does to the cache of inodes.
use native.Mathlib.Nat.{mod-lt}
use os_thix.Prelude.{
  ℕ, ◌+◌, ◌<◌, ◌≡◌, ◌≢◌, inl, inr, refl, ap, ◌∙◌, subst, Bool, true, false, some, List, [], ◌∷◌,
  has, ◌==◌, if◌then◌else◌, length, arith, Bool-cases, eq-cases, eq→==, ne→==,
}
use os_thix.Fs.Links.Paths.{remove}
use os_thix.Fs.Links.Rings.{IsRing}
use os_thix.Fs.Hash.{hash_delete, hash_search}
use os_thix.Fs.Hash.Search.{is_for, IsFound, hash_search-IsFound}
use os_thix.Fs.Hash.Delete.{deleted}
use os_thix.Fs.Hash.Reuse.{reused}
use os_thix.Fs.Inode.{
  Inodes, InodeTurn, got, waits_inode, crosses, loads, no_inode, i_get_turn, get_present,
  get_absent, Fetch, fetched, fetch_failed, fetching, take_entry, finish_get, max_inodes,
  inodes_buckets_no,
}
use os_thix.Fs.Inode.Invariant.{IsInodes, present, take_listed, keep_unlisted}

-- The inode that `i_get` returns: it is in the hash table for that inode of the disk, with a reference more than
-- before, and the cache is well formed.
abbrev pub Got : Inodes → ℕ → ℕ → ℕ → Inodes → Type 0
Got s device dinode n s' =
    (free' : List ℕ) × (bucket' : ℕ → List ℕ) × IsInodes s' free' bucket'
    × (present (s'.hash) bucket' n ≡ true)
    × (is_for (s'.hash) device dinode n ≡ true)
    × (s'.nref n ≡ s.nref n + 1)

-- What a turn of `i_get` owes: an inode; or the cache as it was but for the mark of demand on a busy
-- inode; or the root inode of what is mounted on a mount point; or, asleep in the read of an inode that was free,
-- a state in which the rest of `i_get` gives an inode, whether the read fails or not; or 0, since all inodes have
-- references.
abbrev pub Located : Inodes → List ℕ → (ℕ → List ℕ) → (ℕ → ℕ) → ℕ → ℕ → InodeTurn → Type 0
Located s free bucket mounted device dinode (got n s') = Got s device dinode n s'
Located s free bucket mounted device dinode (waits_inode n s') =
    IsInodes s' free bucket × (s.busy n ≡ true) × (is_for (s.hash) device dinode n ≡ true)
Located s free bucket mounted device dinode (crosses d i) =
    (n : ℕ) × (s.mount_point n ≡ true)
    × (is_for (s.hash) device dinode n ≡ true)
    × (d ≡ mounted n)
    × (i ≡ 1)
Located s free bucket mounted device dinode (loads n s') =
    (has n free ≡ true) × ((readable : Bool) → Got s device dinode n (finish_get readable n s'))
Located s free bucket mounted device dinode no_inode = free ≡ []

module _ (s : Inodes) (free : List ℕ) (bucket : ℕ → List ℕ) (v : IsInodes s free bucket)
    (mounted : ℕ → ℕ) (device dinode : ℕ) where
  get_present-Located :
      (n : ℕ)
      → 0 < n
      → present (s.hash) bucket n ≡ true
      → is_for (s.hash) device dinode n ≡ true
      → s.nref n < 65535
      → n < max_inodes
      → Located s free bucket mounted device dinode (get_present mounted n s)
  unfolding get_present
  get_present-Located n positive inside hit small below = elim (Bool-cases (s.busy n)) [
    | inl e ↦ rw e (record { table = v.table; count = v.count }, e, hit)
    | inr idle ↦ rw idle (elim (Bool-cases (s.mount_point n)) [
      | inl e ↦ rw e (n, e, hit, refl, refl)
      | inr plain ↦ rw plain (elim (eq-cases (s.nref n) 0) [
        | inl e ↦ rw (eq→== (s.nref n) 0 e) (
          remove n free,
          bucket,
          record {
            table = v.table;
            count =
                take_listed (s.list) (s.nref) (s.free_inodes) free (v.count) n _
                  (v.count.listed n positive below e) (omega arith);
          },
          inside,
          hit,
          ground (arith, small),
        )
        | inr ne ↦ rw (ne→== (s.nref n) 0 ne) (
          free,
          bucket,
          record {
            table = v.table;
            count =
                keep_unlisted (s.list) (s.nref) (s.free_inodes) free (v.count) n _
                  (omega (arith, ne)) (omega arith);
          },
          inside,
          hit,
          ground (arith, small),
        )
      ])
    ])
  ]

  -- An inode that is in no entry of the cache is loaded into the first one without a reference.
  module _
      (fresh : (k : ℕ)
        → present (s.hash) bucket k ≡ true
        → is_for (s.hash) device dinode k ≡ false) where
    pub get_absent-Located :
        (fetch : Fetch) (found : ℕ) (free' : List ℕ)
        → free ≡ free'
        → Located s free bucket mounted device dinode (get_absent fetch found device dinode s)
    unfolding get_absent hash_delete take_entry finish_get
    get_absent-Located fetch found [] e =
        rw (eq→== (s.free_inodes) 0 (v.count.counted ∙ ap length e)) e
    get_absent-Located fetch found (x ∷ rest) e = by_fetch fetch
      where
        x_free : has x free ≡ true
        x_free = rw e (ground arith)

        x_place : (0 < x) × (x < max_inodes) × (s.nref x ≡ 0)
        x_place = v.count.unused x x_free

        first : s.list.next 0 ≡ x
        first = (subst (λ xs. IsRing (s.list) 0 xs) e (v.count.ring)).linked.0

        some_free : s.free_inodes ≢ 0
        some_free = ground (arith, v.count.counted, ap length e)

        fresh_after :
            (k : ℕ)
            → (if k == x then false else present (s.hash) bucket k) ≡ true
            → is_for (hash_delete x (s.hash)) device dinode k ≡ false
        fresh_after k at = fresh k (ground (arith, at))

        load :
            (readable : Bool)
            → Got s device dinode x (finish_get readable x (take_entry found device dinode x s))
        load readable =
            let (bucket1, table1, members1) =
              deleted max_inodes inodes_buckets_no (s.hash) bucket (omega arith) (v.table) x
                (omega arith) (x_place.1) in
            let (bucket2, table2, members2, hit) =
              reused max_inodes inodes_buckets_no (hash_delete x (s.hash)) bucket1 (omega arith)
                (omega arith) table1 x device dinode (x_place.0) (x_place.1)
                (members1 x ∙ rw (eq→== x x refl) refl)
                (λ k at. fresh_after k (subst (λ t. t ≡ true) (members1 k) at)) in
            (
              remove x free,
              bucket2,
              record {
                table = table2;
                count =
                    take_listed (s.list) (s.nref) (s.free_inodes) free (v.count) x 1 x_free
                      (omega arith);
              },
              members2 x ∙ rw (eq→== x x refl) refl,
              hit,
              ground (arith, x_place),
            )

        by_fetch :
            (f : Fetch)
            → Located s free bucket mounted device dinode (get_absent f found device dinode s)
        by_fetch fetched = rw (ne→== (s.free_inodes) 0 some_free, first) (load true)
        by_fetch fetch_failed = rw (ne→== (s.free_inodes) 0 some_free, first) (load false)
        by_fetch fetching = rw (ne→== (s.free_inodes) 0 some_free, first) (x_free, load)

-- On a well-formed cache in which no count of references is at its maximum, a turn of `i_get` ends. It returns an
-- inode that is in the hash table for that inode of the disk, with one reference more than before, in a
-- well-formed cache; or it waits for a busy one, or goes on at the root inode of the device that is mounted where the
-- inode is a mount point, or returns 0 where every inode has references. Where it sleeps in the read of
-- the inode, it goes on from that state, if nothing else has changed the cache, to such an inode, whether
-- the read fails or not.
pub i_get_turn-Located :
    (s : Inodes) (free : List ℕ) (bucket : ℕ → List ℕ) (mounted : ℕ → ℕ) (fetch : Fetch)
    (device dinode : ℕ)
    → IsInodes s free bucket
    → ((k : ℕ) → s.nref k < 65535)
    → (t : InodeTurn) × (i_get_turn mounted fetch device dinode s ≡ some t)
      × Located s free bucket mounted device dinode t
unfolding i_get_turn
i_get_turn-Located s free bucket mounted fetch device dinode v small = searched (
    hash_search-IsFound max_inodes inodes_buckets_no device dinode (s.hash) bucket (omega arith)
      (v.table))
  where
    turn : ℕ → InodeTurn
    turn n = if n == 0 then get_absent fetch n device dinode s else get_present mounted n s

    searched :
        (n : ℕ) × (hash_search max_inodes inodes_buckets_no device dinode (s.hash) ≡ some n)
          × IsFound inodes_buckets_no (s.hash) bucket device dinode n
        → (t : InodeTurn) × (i_get_turn mounted fetch device dinode s ≡ some t)
          × Located s free bucket mounted device dinode t
    searched (n, e, found) = (
      turn n,
      rw (e, i_get_turn) refl,
      elim found [
        | inl (zero_n, fresh) ↦
            rw (eq→== n 0 zero_n)
              (get_absent-Located s free bucket v mounted device dinode fresh fetch n free refl)
        | inr (positive, inside, hit) ↦ rw (ne→== n 0 (omega (arith, positive))) (
            get_present-Located s free bucket v mounted device dinode n positive inside hit
              (small n) (v.table.placed _ n (mod-lt _ {m = 127} (omega arith)) inside).2)
      ],
    )

-- A read that does not sleep, by whether it succeeds.
abbrev pub fetch_end : Bool → Fetch
fetch_end true = fetched
fetch_end false = fetch_failed

-- Where the read does not sleep, an inode of the disk that is not in memory is loaded into the first inode without a reference, and
-- the lock of that inode is left as it was: the busy mark goes to entry 0, the head of the list.
pub i_get_turn-unlocked :
    (s : Inodes) (n : ℕ) (free : List ℕ) (bucket : ℕ → List ℕ) (mounted : ℕ → ℕ) (readable : Bool)
    (device dinode : ℕ)
    → IsInodes s (n ∷ free) bucket
    → ((k : ℕ) → present (s.hash) bucket k ≡ true → is_for (s.hash) device dinode k ≡ false)
    → (s' : Inodes) × (i_get_turn mounted (fetch_end readable) device dinode s ≡ some (got n s'))
      × (s'.busy n ≡ s.busy n)
      × (s'.busy 0 ≡ true)
unfolding i_get_turn get_absent
i_get_turn-unlocked s n free bucket mounted readable device dinode v fresh = searched (
    hash_search-IsFound max_inodes inodes_buckets_no device dinode (s.hash) bucket (omega arith)
      (v.table))
  where
    place : (0 < n) × (n < max_inodes) × (s.nref n ≡ 0)
    place = v.count.unused n (ground arith)

    absent :
        (found : ℕ)
        → found ≡ 0
        → (s' : Inodes) × (get_absent (fetch_end readable) found device dinode s ≡ got n s')
          × (s'.busy n ≡ s.busy n)
          × (s'.busy 0 ≡ true)
    absent found e = elim (Bool-cases readable) [
      | inl good ↦
          rw
            (good, ne→== (s.free_inodes) 0 (ground (arith, v.count.counted)), v.count.ring.linked.0)
            (_, refl, ground (arith, e, place), ground (arith, e))
      | inr bad ↦
          rw (bad, ne→== (s.free_inodes) 0 (ground (arith, v.count.counted)), v.count.ring.linked.0)
            (_, refl, ground (arith, e, place), ground (arith, e))
    ]

    turned :
        (m : ℕ)
        → hash_search max_inodes inodes_buckets_no device dinode (s.hash) ≡ some m
        → m ≡ 0
        → (s' : Inodes) × (get_absent (fetch_end readable) m device dinode s ≡ got n s')
          × (s'.busy n ≡ s.busy n)
          × (s'.busy 0 ≡ true)
        → (s' : Inodes) × (i_get_turn mounted (fetch_end readable) device dinode s
            ≡ some (got n s'))
          × (s'.busy n ≡ s.busy n)
          × (s'.busy 0 ≡ true)
    turned m e zero_m (s', loaded, same, head) =
        (s', rw (e, i_get_turn, eq→== m 0 zero_m) (ap some loaded), same, head)

    searched :
        (m : ℕ) × (hash_search max_inodes inodes_buckets_no device dinode (s.hash) ≡ some m)
          × IsFound inodes_buckets_no (s.hash) bucket device dinode m
        → (s' : Inodes) × (i_get_turn mounted (fetch_end readable) device dinode s
            ≡ some (got n s'))
          × (s'.busy n ≡ s.busy n)
          × (s'.busy 0 ≡ true)
    searched (m, e, found) = elim found [
      | inl (zero_m, none_for) ↦ turned m e zero_m (absent m zero_m)
      | inr (positive, inside, hit) ↦ absurd (ground (arith, fresh m inside, hit))
    ]
