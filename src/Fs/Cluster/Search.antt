-- ===== src/Fs/Cluster/Search.antt =====
-- What `search_cluster` finds, and what it leaves in memory and on the disk.
use native.Mathlib.Nat.{mul-div_cancel}
use os_thix.Prelude.{
  ltb, if-elim, ==→eq, ℕ, zero, suc, ◌+◌, ◌*◌, ◌/◌, ◌<◌, ◌≤◌, ◌≡◌, ◌≢◌, ◌⊎◌, refl, ap, ◌∙◌, sym,
  subst, Bool, true, false, none, some, List, ◌==◌, if◌then◌else◌, Run, done, asleep, panic, ◌>>=◌,
  arith, inl, inr, Option-cases, Bool-cases, eq-cases, eq→==, ne→==,
}
use os_thix.Fs.Cluster.{
  FileSystem, BitmapType, inodes, blocks, cluster_reserved_to_fs, switch_cluster, search_from,
  free_resources, current_cluster, found_or_panic, search_cluster, is_idle,
}
use os_thix.Fs.Cluster.Blocks.{Cache}
use os_thix.Fs.Cluster.Switch.{
  IsFull, IsOwn, IsLike, Switched, Tried, bitmap_block, switch_cluster-Tried, with_cache,
}

module _ (fs : FileSystem) (type : BitmapType) (kilobyte : fs.sb.s_blksz ≡ 1024) where
  -- What a walk through the clusters from `low` up to `high` comes to.
  abbrev Walked : ℕ → ℕ → Run (Bool × FileSystem) → Type 0
  Walked low high (done (true, fs')) =
      (cluster : ℕ) × (words : List ℕ) × (cluster < high) × Switched fs type fs' cluster words
  Walked low high (done (false, fs')) =
      (c : Cache) × (fs' ≡ with_cache fs c)
      × IsLike fs c
      × ((k : ℕ) → low ≤ k → k < high → IsFull fs type k)
  Walked low high asleep =
      (cluster : ℕ) × (low ≤ cluster)
      × (cluster < high)
      × IsOwn fs type cluster
      × ((k : ℕ) → low ≤ k → k < cluster → IsFull fs type k)
  Walked low high panic = ⊥

  search_from-Walked :
      (left low : ℕ) (c : Cache)
      → IsLike fs c
      → Walked low (low + left) (search_from (with_cache fs c) type low left)
  unfolding search_from
  search_from-Walked zero low c like = (c, refl, like, λ k lo hi. absurd (omega (arith, lo, hi)))
  search_from-Walked (suc left) low c like =
      go_on (switch_cluster (with_cache fs c) low type false)
        (switch_cluster-Tried fs type kilobyte low c like)
        (λ c' like'. search_from-Walked left (suc low) c' like')
    where
      later :
          (r : Run (Bool × FileSystem))
          → IsFull fs type low
          → Walked (suc low) (suc low + left) r
          → Walked low (low + suc left) r
      later (done (true, fs')) full (k, words, below, s) = (k, words, omega (arith, below), s)
      later (done (false, fs')) full (c', e, like', rest) = (
        c',
        e,
        like',
        λ k lo hi. elim (eq-cases k low) [
          | inl same ↦ subst (λ x. IsFull fs type x) (sym same) full
          | inr ne ↦ rest k (omega (arith, ne, lo)) (omega (arith, hi))
        ],
      )
      later asleep full (k, lo, hi, own, rest) = (
        k,
        omega (arith, lo),
        omega (arith, hi),
        own,
        λ j lo' hi'. elim (eq-cases j low) [
          | inl same ↦ subst (λ x. IsFull fs type x) (sym same) full
          | inr ne ↦ rest j (omega (arith, ne, lo')) hi'
        ],
      )
      later panic full w = w

      go_on :
          (r : Run (Bool × FileSystem))
          → Tried fs type kilobyte low r
          → ((c' : Cache)
              → IsLike fs c'
              → Walked
                  (suc low)
                  (suc low + left)
                  (search_from (with_cache fs c') type (suc low) left))
          → Walked low (low + suc left) (elim r [
            | done (true, fs') ↦ done (true, fs')
            | done (false, fs') ↦ search_from fs' type (suc low) left
            | stopped ↦ stopped
          ])
      go_on (done (true, fs')) (words, s) next = (low, words, omega arith, s)
      go_on (done (false, fs')) (c', e, like', full) next =
          rw e (later (search_from (with_cache fs c') type (suc low) left) full (next c' like'))
      go_on asleep (words, usable, own) next =
          (low, omega arith, omega arith, own, λ k lo hi. absurd (omega (arith, lo, hi)))
      go_on panic t next = t

-- What `search_cluster` owes. It panics where no other cluster than the current one has a free resource, and
-- waits for itself where the same holds and the current cluster is the last one.
abbrev pub Searched : FileSystem → BitmapType → Run (Bool × FileSystem) → Type 0
Searched fs type (done (true, fs')) =
    (cluster : ℕ) × (words : List ℕ) × (cluster < fs.sb.s_clusters)
    × Switched fs type fs' cluster words
Searched fs type (done (false, fs')) = (fs' ≡ fs) × (free_resources (fs.sb) type ≡ 0)
Searched fs type asleep =
    (old : ℕ) × (current_cluster (fs.mp) type ≡ some old)
    × (suc old ≡ fs.sb.s_clusters)
    × ((k : ℕ) → k < old → IsFull fs type k)
Searched fs type panic =
    (k : ℕ) → k < fs.sb.s_clusters → (current_cluster (fs.mp) type ≢ some k) → IsFull fs type k

bitmap_block-distinct :
    (fs : FileSystem) (type : BitmapType) (a b : ℕ)
    → 0 < fs.sb.s_bpcluster
    → bitmap_block fs type a ≡ bitmap_block fs type b
    → a ≡ b
unfolding cluster_reserved_to_fs
bitmap_block-distinct fs type a b spread e =
    sym (mul-div_cancel a spread)
    ∙ ap (λ x. x / fs.sb.s_bpcluster) (products type e)
    ∙ mul-div_cancel b spread
  where
    products :
        (t : BitmapType)
        → bitmap_block fs t a ≡ bitmap_block fs t b
        → a * fs.sb.s_bpcluster ≡ b * fs.sb.s_bpcluster
    products inodes h = omega (arith, h)
    products blocks h = omega (arith, h)

module _ (fs : FileSystem) (type : BitmapType) (kilobyte : fs.sb.s_blksz ≡ 1024)
    (spread : 0 < fs.sb.s_bpcluster) where
  first_time :
      (r : Run (Bool × FileSystem))
      → current_cluster (fs.mp) type ≡ none
      → Walked fs type kilobyte 0 (fs.sb.s_clusters) r
      → Searched fs type (r >>= found_or_panic)
  first_time (done (true, fs')) first w = w
  first_time (done (false, fs')) first (c, e, like, full) =
      λ k below other. full k (omega arith) below
  first_time asleep first (k, lo, hi, (old, now, same), full) = absurd (ground (arith, first, now))
  first_time panic first w = absurd w

  module _ (old : ℕ) (now : current_cluster (fs.mp) type ≡ some old)
      (below : old < fs.sb.s_clusters) where
    own_is_old : (k : ℕ) → IsOwn fs type k → k ≡ old
    own_is_old k (old', now', same) =
        bitmap_block-distinct fs type k old' spread same ∙ ground (arith, now, now')

    second_loop :
        (start : ℕ) (r : Run (Bool × FileSystem))
        → start ≤ suc old
        → ((k : ℕ) → start ≤ k → k < fs.sb.s_clusters → IsFull fs type k)
        → Walked fs type kilobyte 0 old r
        → Searched fs type (r >>= found_or_panic)
    second_loop start (done (true, fs')) near full (k, words, hi, s) =
        (k, words, omega (arith, hi, below), s)
    second_loop start (done (false, fs')) near full (c, e, like, rest) = λ k hi other.
        elim (eq-cases k old) [
          | inl same ↦ absurd (other (now ∙ ap some (sym same)))
          | inr ne ↦ elim (Bool-cases (ltb k old)) [
            | inl less ↦ rest k (omega arith) (ground (arith, less))
            | inr more ↦ full k (ground (arith, more, ne, near)) hi
          ]
        ]
    second_loop start asleep near full (k, lo, hi, own, rest) =
        absurd (omega (arith, hi, own_is_old k own))
    second_loop start panic near full w = absurd w

    first_loop :
        (start : ℕ) (r : Run (Bool × FileSystem))
        → (start ≡ suc old) ⊎ ((start ≡ 0) × (suc old ≡ fs.sb.s_clusters))
        → ((c : Cache)
            → IsLike fs c
            → Walked fs type kilobyte 0 old (search_from (with_cache fs c) type 0 old))
        → Walked fs type kilobyte start (fs.sb.s_clusters) r
        → Searched fs type (
            r >>= λ r'.
            (if r'.0 then done r' else (search_from (r'.1) type 0 old >>= found_or_panic)))
    first_loop start (done (true, fs')) at next w = w
    first_loop start (done (false, fs')) at next (c, e, like, full) =
        rw e (
          second_loop start (search_from (with_cache fs c) type 0 old) (near at) full (next c like))
      where
        near : (start ≡ suc old) ⊎ ((start ≡ 0) × (suc old ≡ fs.sb.s_clusters)) → start ≤ suc old
        near (inl s) = omega (arith, s)
        near (inr s) = omega (arith, s.0)
    first_loop start asleep (inl s) next (k, lo, hi, own, full) =
        absurd (omega (arith, lo, s, own_is_old k own))
    first_loop start asleep (inr s) next (k, lo, hi, own, full) = (
      old,
      now,
      s.1,
      λ j less. full j (omega (arith, s.0)) (omega (arith, less, own_is_old k own)),
    )
    first_loop start panic at next w = absurd w

-- On a file system with blocks of 1024 bytes whose buffers nobody holds, with clusters of one block at least and a current cluster, if any, below
-- the number of clusters: `search_cluster` returns 1 only with a cluster whose bitmap on the disk has a free
-- resource. That bitmap is then in memory with its count, the bitmap before it has been written to its own block, and all
-- other blocks read as they did. It returns 0 only where the superblock counts no free resource, with nothing
-- changed. It panics only where no cluster but the current one has a bitmap that can be read and has a free
-- resource. It waits, for a buffer that it holds itself, only where the current cluster is the last and no other
-- one has a free resource.
pub search_cluster-Searched :
    (fs : FileSystem) (type : BitmapType)
    → fs.sb.s_blksz ≡ 1024
    → 0 < fs.sb.s_bpcluster
    → ((b : ℕ) → is_idle (fs.cache b) ≡ true)
    → ((old : ℕ) → current_cluster (fs.mp) type ≡ some old → old < fs.sb.s_clusters)
    → Searched fs type (search_cluster fs type)
unfolding search_cluster
search_cluster-Searched fs type kilobyte spread idle range =
    if-elim (Searched fs type) (free_resources (fs.sb) type == 0) (λ e. (refl, ==→eq _ 0 e))
      (λ ne. elim (Option-cases (current_cluster (fs.mp) type)) [
        | inl first ↦ rw first (
            first_time fs type kilobyte spread _ first (rounds 0 _ _ (fs.cache) like (omega arith)))
        | inr (old, now) ↦ rw now (elim (eq-cases (suc old) (fs.sb.s_clusters)) [
          | inl last ↦ rw (eq→== _ _ last) (
              first_loop fs type kilobyte spread old now (range old now) 0 _ (inr (refl, last))
                (λ c l. rounds 0 old old c l (omega arith))
                (rounds 0 _ _ (fs.cache) like (omega arith)))
          | inr other ↦ rw (ne→== _ _ other) (
              first_loop fs type kilobyte spread old now (range old now) (suc old) _ (inl refl)
                (λ c l. rounds 0 old old c l (omega arith))
                (rounds (suc old) _ _ (fs.cache) like (omega (arith, range old now))))
        ])
      ])
  where
    like : IsLike fs (fs.cache)
    like = record { same = λ b. refl; idle = idle }

    rounds :
        (start finish left : ℕ) (c : Cache)
        → IsLike fs c
        → start + left ≡ finish
        → Walked fs type kilobyte start finish (search_from (with_cache fs c) type start left)
    rounds start finish left c like' e =
        subst (λ n. Walked fs type kilobyte start n (search_from (with_cache fs c) type start left))
          e (search_from-Walked fs type kilobyte left start c like')
