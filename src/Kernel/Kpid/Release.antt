-- ===== src/Kernel/Kpid/Release.antt =====
-- `release_kpid` of kernel/kpid.c and the process list.
use os_thix.Prelude.{
  ℕ, ◌≡◌, ◌≢◌, inl, inr, true, false, List, [], ◌∷◌, ◌==◌, if◌then◌else◌, arith, has, Bool-cases,
  eq-cases,
}
use os_thix.Kernel.Kpid.{KpidStruct, KpidTable, release_kpid}
use os_thix.Kernel.Kpid.Get.{root_outside}
use os_thix.Kernel.Kpid.Chain.{
  Links, NoDup, last, remove, Holds, Links-frame, has-last, has-remove, NoDup-remove, length-remove,
  prev-ne, prev-mem, next-mem, next-last,
}

-- `d'` is `d` with `k` taken out of the list.
record Unlinked (d d' : ℕ → KpidStruct) (k : ℕ) : Type 0 where
  next : (j : ℕ) → (d' j).next ≡ (if (d k).prev == j then (d k).next else (d j).next)
  prev : (j : ℕ) → j ≢ 0 → (d' j).prev ≡ (if (d k).next == j then (d k).prev else (d j).prev)
  used : (j : ℕ) → (d' j).used ≡ (if k == j then false else (d j).used)

-- Taking out the head `x` of a list links its predecessor `p` with its successor.
Links-unlink :
    (d d' : ℕ → KpidStruct) (p x : ℕ) (xs : List ℕ)
    → Unlinked d d' x
    → (d x).prev ≡ p
    → Links d x xs
    → NoDup xs
    → has p xs ≡ false
    → has x xs ≡ false
    → Links d' p xs
Links-unlink d d' p x [] u e l n out new = ground (arith, u.next p)
Links-unlink d d' p x (y ∷ ys) u e l n out new = (
  ground (arith, u.next p),
  ground (arith, u.prev y),
  ground (arith, u.used y),
  l.3,
  Links-frame d d' y ys l.4 (ground (arith, u.next y)) λ j h. (
    ground (arith, u.next j),
    ground (arith, u.prev j, nonzero y ys l.4 j h),
    ground (arith, u.used j),
  ),
)
  where
    nonzero : (k : ℕ) (zs : List ℕ) → Links d k zs → (j : ℕ) → has j zs ≡ true → j ≢ 0
    nonzero k [] l j h = absurd (ground arith)
    nonzero k (z ∷ zs) l j h = elim (eq-cases j z) [
      | inl e ↦ rw e (l.3)
      | inr ne ↦ nonzero z zs l.4 j (ground arith)
    ]

Links-remove :
    (d d' : ℕ → KpidStruct) (p k : ℕ) (xs : List ℕ)
    → Unlinked d d' k
    → Links d p xs
    → NoDup xs
    → has p xs ≡ false
    → has k xs ≡ true
    → Links d' p (remove k xs)
Links-remove d d' p k [] u l n out h = absurd (ground arith)
Links-remove d d' p k (x ∷ xs) u l n out h = elim (Bool-cases (k == x)) [
  | inl e ↦
      let k_head : x ≡ k = ground arith in
      rw e (Links-unlink d d' p x xs (rw k_head u) l.1 l.4 n.1 (ground arith) n.0)
  | inr e ↦
      let behind : has k xs ≡ true = ground arith in
      rw e (
        ground (arith, u.next p, prev-mem d x k xs l.4 behind),
        ground (arith, u.prev x, next-mem d x k xs l.4 behind),
        ground (arith, u.used x),
        l.3,
        Links-remove d d' x k xs u l.4 n.1 n.0 behind,
      )
]

release_kpid-Unlinked :
    (t : KpidTable) (xs : List ℕ) (k : ℕ)
    → Holds t xs
    → has k xs ≡ true
    → Unlinked t.kpid_data (release_kpid t k).kpid_data k
unfolding release_kpid
release_kpid-Unlinked t xs k v on = record {
  next = λ j. ground (
    arith,
    v.tail,
    next-last t.kpid_data 0 k xs v.links v.nodup on,
    prev-ne t.kpid_data 0 k xs v.links v.nodup (root_outside t xs v) on,
  );
  prev = λ j z. ground (
    arith,
    v.tail,
    next-last t.kpid_data 0 k xs v.links v.nodup on,
    prev-ne t.kpid_data 0 k xs v.links v.nodup (root_outside t xs v) on,
  );
  used = λ j. ground arith;
}

last-remove :
    (d : ℕ → KpidStruct) (p k : ℕ) (xs : List ℕ)
    → Links d p xs
    → NoDup xs
    → has k xs ≡ true
    → last p (remove k xs) ≡ (if k == last p xs then (d k).prev else last p xs)
last-remove d p k [] l n h = absurd (ground arith)
last-remove d p k (x ∷ []) l n h = ground arith
last-remove d p k (x ∷ y ∷ xs) l n h = elim (Bool-cases (k == x)) [
  | inl e ↦ ground (arith, has-last y xs)
  | inr e ↦ rw e (last-remove d x k (y ∷ xs) l.4 n.1 (ground arith))
]

-- `release_kpid` of a process on the list takes it out, keeps the order of the others and leaves
-- the table well formed.
pub release_kpid-Holds :
    (t : KpidTable) (xs : List ℕ) (k : ℕ)
    → Holds t xs
    → has k xs ≡ true
    → Holds (release_kpid t k) (remove k xs)
unfolding release_kpid
release_kpid-Holds t xs k v on = record {
  links =
      Links-remove t.kpid_data (release_kpid t k).kpid_data 0 k xs
        (release_kpid-Unlinked t xs k v on) v.links v.nodup (root_outside t xs v) on;
  nodup = NoDup-remove k xs v.nodup;
  tail = ground (arith, v.tail, last-remove t.kpid_data 0 k xs v.links v.nodup on);
  kpids = ground (arith, v.kpids, length-remove k xs on);
  unused = λ j ne h.
      ground (
        arith,
        (release_kpid-Unlinked t xs k v on).used j,
        has-remove j k xs v.nodup,
        v.unused j ne,
      );
}
