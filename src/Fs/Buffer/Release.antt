-- ===== src/Fs/Buffer/Release.antt =====
-- Releasing and removing buffers of the cache (fs/buffer.c).
use os_thix.Prelude.{
  ℕ, ◌-◌, ◌≡◌, inl, inr, refl, ◌∙◌, Bool, true, false, List, [], ◌∷◌, ◌++◌, has, if◌then◌else◌,
  arith, Bool-cases, eq→==,
}
use os_thix.Fs.Links.{unlink}
use os_thix.Fs.Links.Paths.{remove}
use os_thix.Fs.Hash.Search.{home}
use os_thix.Fs.Hash.Invariant.{without_entry}
use os_thix.Fs.Hash.{hash_delete}
use os_thix.Fs.Buffer.{Buffers, buf_release, buf_remove, buffers_buckets_no}
use os_thix.Fs.Buffer.Invariant.{IsSound, IsCache, cached, reclaim, cached-delete}
use os_thix.Fs.Buffer.Steps.{release_last, release_first, add_master}

-- The free buffers after `n` has been released: the order in which they will be reused.
abbrev pub with_released : Bool → ℕ → List ℕ → List ℕ
with_released valid n free = if valid then free ++ n ∷ [] else n ∷ free

-- Releasing a busy buffer of the cache keeps the cache well formed: the buffer is idle, its block stays in
-- the cache, and it is reused after all free buffers if its contents are valid and before them if not.
pub buf_release-IsCache :
    (b : Buffers) (master free : List ℕ) (bucket : ℕ → List ℕ) (n : ℕ)
    → IsCache b master free bucket
    → cached (b.hash) bucket n ≡ true
    → b.busy n ≡ true
    → IsCache (buf_release n b) master (with_released (b.valid n) n free) bucket
unfolding buf_release
buf_release-IsCache b master free bucket n v inside is_busy = elim (Bool-cases (b.valid n)) [
  | inl e ↦ rw e (
      release_last (b.hash) (b.list) (b.busy) (b.free_buffers) (b.master_free_buffers) master free
        bucket v n inside is_busy)
  | inr e ↦ rw e (
      release_first (b.hash) (b.list) (b.busy) (b.free_buffers) (b.master_free_buffers) master free
        bucket v n inside is_busy)
]

-- Removing a free buffer keeps the cache well formed: it leaves the free buffers and its bucket and
-- becomes the last of the unused ones.
pub buf_remove-IsCache :
    (b : Buffers) (master free : List ℕ) (bucket : ℕ → List ℕ) (n : ℕ)
    → IsCache b master free bucket
    → has n free ≡ true
    → IsCache
        (buf_remove n b)
        (master ++ n ∷ [])
        (remove n free)
        (without_entry (home buffers_buckets_no (b.hash) n) n bucket)
unfolding buf_remove
buf_remove-IsCache b master free bucket n v inside =
    add_master (hash_delete n (b.hash)) (unlink n (b.list)) (b.busy) (b.free_buffers - 1)
      (b.master_free_buffers) master (remove n free)
      (without_entry (home buffers_buckets_no (b.hash) n) n bucket) without n ((v.idle n inside).0)
      ((v.idle n inside).1) gone not_unused
  where
    without :
        IsSound
          (hash_delete n (b.hash))
          (unlink n (b.list))
          (b.busy)
          (b.free_buffers - 1)
          (b.master_free_buffers)
          master
          (remove n free)
          (without_entry (home buffers_buckets_no (b.hash) n) n bucket)
    without =
        reclaim (b.hash) (b.list) (b.busy) (b.free_buffers) (b.master_free_buffers) master free
          bucket v n inside

    gone :
        cached
          (hash_delete n (b.hash))
          (without_entry (home buffers_buckets_no (b.hash) n) n bucket)
          n
        ≡ false
    gone =
        cached-delete (b.hash) (b.list) (b.busy) (b.free_buffers) (b.master_free_buffers) master
          free bucket v n n ((v.idle n inside).2)
        ∙ rw (eq→== n n refl) refl

    not_unused : has n master ≡ false
    not_unused = elim (Bool-cases (has n master)) [
      | inl at ↦ absurd (ground (arith, (v.unused n at).2, (v.idle n inside).2))
      | inr no_more ↦ no_more
    ]
