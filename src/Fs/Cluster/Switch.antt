-- ===== src/Fs/Cluster/Switch.antt =====
-- What `switch_cluster` (fs/cluster.c) leaves in memory and on the disk.
use os_thix.Prelude.{
  ℕ, ◌*◌, ◌≡◌, ◌≢◌, refl, ap, ◌∙◌, sym, subst, Bool, true, false, Option, none, some, List, ◌++◌,
  take, drop, Run, done, asleep, panic, ◌>>=◌, arith, inl, inr, Option-cases, Bool-cases, eq-cases,
  update,
}
use os_thix.Fs.Bitmap.{count_bitmap}
use os_thix.Fs.Bitmap.Count.{AllWords, free_count, count_bitmap-free_count}
use os_thix.Fs.Cluster.{
  FileSystem, MountPoint, BitmapType, inodes, blocks, bitmap_place, cluster_reserved_to_fs,
  bitmap_limit, any_free, flush_cluster, load_bitmap, do_switch_cluster, switch_cluster,
  switch_read, current_cluster, BlockBuffer, is_idle, write_block, read_block, release_block,
}
use os_thix.Fs.Cluster.Blocks.{
  Cache, contents, seen, HasBuffer, held_buffer, free_buffer, read_block-some, read_block-none,
  write_block-done, write_block-asleep,
}

abbrev pub bitmap_of : MountPoint → BitmapType → List ℕ
bitmap_of mp inodes = mp.ibitmap
bitmap_of mp blocks = mp.bbitmap

abbrev pub count_of : MountPoint → BitmapType → ℕ
count_of mp inodes = mp.icount
count_of mp blocks = mp.bcount

-- The block of a cluster's bitmap: the first of the cluster has the copy of the superblock, the second
-- the bitmap of inodes and the third that of blocks.
abbrev pub bitmap_block : FileSystem → BitmapType → ℕ → ℕ
bitmap_block fs inodes cluster = cluster_reserved_to_fs (fs.sb) cluster 1
bitmap_block fs blocks cluster = cluster_reserved_to_fs (fs.sb) cluster 2

-- The bitmap of a cluster has words to offer.
abbrev pub IsUsable : FileSystem → BitmapType → ℕ → List ℕ → Type 0
IsUsable fs type cluster ws =
    (contents fs (bitmap_block fs type cluster) ≡ some ws)
    × (any_free ws (bitmap_limit (fs.sb) cluster type) ≡ true)

-- The bitmap of a cluster cannot be read, or it has no free resource.
abbrev pub IsFull : FileSystem → BitmapType → ℕ → Type 0
IsFull fs type cluster =
    (ws : List ℕ)
    → contents fs (bitmap_block fs type cluster) ≡ some ws
    → any_free ws (bitmap_limit (fs.sb) cluster type) ≡ false

-- The bitmap of `cluster`, which is `words` on the disk, is in memory with its count, and that of the
-- cluster before has been written to its block.
pub record Switched (fs : FileSystem) (type : BitmapType) (fs' : FileSystem) (cluster : ℕ)
    (words : List ℕ) : Type 0 where
  pub usable : IsUsable fs type cluster words
  pub current : current_cluster (fs'.mp) type ≡ some cluster
  pub bitmap :
      let limit = bitmap_limit (fs.sb) cluster type in
      bitmap_of (fs'.mp) type ≡ take limit words ++ drop limit (bitmap_of (fs.mp) type)
  pub count :
      AllWords words
      → count_of (fs'.mp) type ≡ free_count (take (bitmap_limit (fs.sb) cluster type) words)
  pub flushed :
      (old : ℕ)
      → current_cluster (fs.mp) type ≡ some old
      → contents fs' (bitmap_block fs type old) ≡ some (bitmap_of (fs.mp) type)
  pub kept :
      (k : ℕ)
      → ((old : ℕ) → current_cluster (fs.mp) type ≡ some old → k ≢ bitmap_block fs type old)
      → contents fs' k ≡ contents fs k

-- The cluster's bitmap is that of the current cluster, whose buffer the routine would wait for
-- while it holds it.
abbrev pub IsOwn : FileSystem → BitmapType → ℕ → Type 0
IsOwn fs type cluster =
    (old : ℕ) × (current_cluster (fs.mp) type ≡ some old)
    × (bitmap_block fs type cluster ≡ bitmap_block fs type old)

bitmap_block_lem :
    (fs : FileSystem) (type : BitmapType) (c : ℕ)
    → cluster_reserved_to_fs (fs.sb) c (bitmap_place type) ≡ bitmap_block fs type c
bitmap_block_lem fs inodes c = refl
bitmap_block_lem fs blocks c = refl

flush_cluster-none :
    (fs : FileSystem) (type : BitmapType)
    → current_cluster (fs.mp) type ≡ none
    → flush_cluster fs type ≡ done fs
unfolding flush_cluster current_cluster
flush_cluster-none fs inodes e = rw e refl
flush_cluster-none fs blocks e = rw e refl

flush_cluster-some :
    (fs : FileSystem) (type : BitmapType) (old : ℕ)
    → current_cluster (fs.mp) type ≡ some old
    → flush_cluster fs type ≡ write_block fs (bitmap_block fs type old) (bitmap_of (fs.mp) type)
unfolding flush_cluster current_cluster
flush_cluster-some fs inodes old e = rw e refl
flush_cluster-some fs blocks old e = rw e refl

load_bitmap_lem :
    (fs : FileSystem) (c : ℕ) (type : BitmapType) (ws : List ℕ)
    → (mp : MountPoint) × (load_bitmap fs c type ws ≡ record fs { mp = mp })
      × (current_cluster mp type ≡ some c)
      × (bitmap_of mp type
          ≡ take (bitmap_limit (fs.sb) c type) ws
            ++ drop (bitmap_limit (fs.sb) c type) (bitmap_of (fs.mp) type))
      × (count_of mp type ≡ count_bitmap ws (bitmap_limit (fs.sb) c type * 4))
unfolding load_bitmap current_cluster
load_bitmap_lem fs c inodes ws = (_, refl, refl, refl, refl)
load_bitmap_lem fs c blocks ws = (_, refl, refl, refl, refl)

-- The state with another cache.
abbrev pub with_cache : FileSystem → Cache → FileSystem
with_cache fs c = record fs { cache = c }

-- A cache in which no buffer is held, and all blocks read as they did.
pub record IsLike (fs : FileSystem) (c : Cache) : Type 0 where
  pub same : (b : ℕ) → contents (with_cache fs c) b ≡ contents fs b
  pub idle : (b : ℕ) → is_idle (c b) ≡ true

module _ (fs : FileSystem) (type : BitmapType) (kilobyte : fs.sb.s_blksz ≡ 1024) where
  -- What one call of `switch_cluster` comes to.
  abbrev pub Tried : ℕ → Run (Bool × FileSystem) → Type 0
  Tried cluster (done (true, fs')) = (words : List ℕ) × Switched fs type fs' cluster words
  Tried cluster (done (false, fs')) =
      (c : Cache) × (fs' ≡ with_cache fs c) × IsLike fs c × IsFull fs type cluster
  Tried cluster asleep = (words : List ℕ) × IsUsable fs type cluster words × IsOwn fs type cluster
  Tried cluster panic = ⊥

  -- The buffer of the cluster's bitmap is held.
  module _ (cluster : ℕ) (words : List ℕ) (usable : IsUsable fs type cluster words) (c0 c : Cache)
      (like : IsLike fs c0)
      (h : HasBuffer c0 c (bitmap_block fs type cluster) (held_buffer words)) where
    -- The bitmap in memory has been flushed, or there was none.
    finished :
        (c' : Cache)
        → flush_cluster (with_cache fs c) type ≡ done (with_cache fs c')
        → ((old : ℕ)
            → current_cluster (fs.mp) type ≡ some old
            → (bitmap_block fs type old ≢ bitmap_block fs type cluster)
              × (contents (with_cache fs c') (bitmap_block fs type old)
                  ≡ some (bitmap_of (fs.mp) type)))
        → ((k : ℕ)
            → k ≢ bitmap_block fs type cluster
            → ((old : ℕ) → current_cluster (fs.mp) type ≡ some old → k ≢ bitmap_block fs type old)
            → contents (with_cache fs c') k ≡ contents fs k)
        → Tried cluster (do_switch_cluster (with_cache fs c) cluster type words)
    unfolding do_switch_cluster release_block
    finished c' done_flush old_there others =
        let (mp, e, current, bitmap, count) =
          load_bitmap_lem (with_cache fs c') cluster type words in
        let fs' =
          release_block (record fs { cache = c'; mp = mp }) (bitmap_block fs type cluster) words in
        let ends : do_switch_cluster (with_cache fs c) cluster type words ≡ done (true, fs') =
          rw (done_flush, e, bitmap_block_lem fs type cluster) refl in
        subst (Tried cluster) (sym ends) (
          words,
          record {
            usable = usable;
            current = current;
            bitmap = bitmap;
            count = λ all_words.
                count
                ∙ count_bitmap-free_count words _ all_words
                ∙ ap (λ n. free_count (take n words)) (omega arith);
            flushed = λ old now. ground (arith, old_there old now);
            kept = λ k apart. elim (eq-cases k (bitmap_block fs type cluster)) [
              | inl same ↦ ground (arith, same, usable.0)
              | inr ne ↦ ground (arith, ne, others k ne apart)
            ];
          },
        )

    do_switch_cluster-Tried : Tried cluster (do_switch_cluster (with_cache fs c) cluster type words)
    unfolding do_switch_cluster
    do_switch_cluster-Tried = elim (Option-cases (current_cluster (fs.mp) type)) [
      | inl first ↦
          finished c (flush_cluster-none (with_cache fs c) type first)
            (λ old now. absurd (ground (arith, first, now)))
            (λ k ne apart. ap (λ x. seen x (fs.device k)) (h.elsewhere k ne) ∙ like.same k)
      | inr (old, now) ↦ elim (eq-cases (bitmap_block fs type old) (bitmap_block fs type cluster)) [
        | inl same ↦
            let waits : do_switch_cluster (with_cache fs c) cluster type words ≡ asleep =
              rw
                (
                  flush_cluster-some (with_cache fs c) type old now,
                  write_block-asleep (with_cache fs c) (bitmap_block fs type old)
                      (bitmap_of (fs.mp) type) words kilobyte (ap c same ∙ h.here),
                )
                refl in
            subst (Tried cluster) (sym waits) (words, usable, (old, now, sym same))
        | inr apart ↦ written old now apart (
            write_block-done (with_cache fs c) kilobyte (bitmap_block fs type old)
              (ap is_idle (h.elsewhere _ apart) ∙ like.idle _) (bitmap_of (fs.mp) type))
      ]
    ]
      where
        written :
            (old : ℕ)
            → current_cluster (fs.mp) type ≡ some old
            → bitmap_block fs type old ≢ bitmap_block fs type cluster
            → (c' : Cache) × (write_block
                  (with_cache fs c)
                  (bitmap_block fs type old)
                  (bitmap_of (fs.mp) type)
                ≡ done (with_cache fs c'))
              × HasBuffer c c' (bitmap_block fs type old) (free_buffer (bitmap_of (fs.mp) type))
            → Tried cluster (do_switch_cluster (with_cache fs c) cluster type words)
        written old now apart (c', e, w) =
            finished c' (flush_cluster-some (with_cache fs c) type old now ∙ e)
              (λ other at.
                subst
                  (λ o.
                    (bitmap_block fs type o ≢ bitmap_block fs type cluster)
                    × (contents (with_cache fs c') (bitmap_block fs type o)
                        ≡ some (bitmap_of (fs.mp) type)))
                  (ground (arith, now, at))
                  (apart, ap (λ x. seen x (fs.device (bitmap_block fs type old))) (w.here)))
              (λ k ne rest.
                ap (λ x. seen x (fs.device k)) (w.elsewhere k (rest old now) ∙ h.elsewhere k ne)
                ∙ like.same k)

  -- The buffer that has been read is released as it was.
  released-IsLike :
      (b : ℕ) (c c' : Cache) (words : List ℕ)
      → IsLike fs c
      → contents fs b ≡ some words
      → HasBuffer c c' b (held_buffer words)
      → IsLike fs (update c' b (some (free_buffer words)))
  released-IsLike b c c' words like e h = record {
    same = λ k. elim (eq-cases k b) [
      | inl same ↦ ground (arith, same, e)
      | inr ne ↦ ground (arith, ne, h.elsewhere k ne, like.same k)
    ];
    idle = λ k. elim (eq-cases k b) [
      | inl same ↦ ground (arith, same)
      | inr ne ↦ ground (arith, ne, h.elsewhere k ne, like.idle k)
    ];
  }

  unread-IsLike :
      (b : ℕ) (c c' : Cache) (buffer : BlockBuffer)
      → IsLike fs c
      → contents fs b ≡ none
      → HasBuffer c c' b buffer
      → buffer.busy ≡ false
      → buffer.valid ≡ false
      → IsLike fs c'
  unread-IsLike b c c' buffer like e h idle invalid = record {
    same = λ k. elim (eq-cases k b) [
      | inl at ↦ ground (arith, at, e, invalid, h.here)
      | inr ne ↦ ground (arith, ne, h.elsewhere k ne, like.same k)
    ];
    idle = λ k. elim (eq-cases k b) [
      | inl at ↦ ground (arith, at, idle, h.here)
      | inr ne ↦ ground (arith, ne, h.elsewhere k ne, like.idle k)
    ];
  }

  switch_cluster-read :
      (cluster : ℕ) (c c' : Cache) (address : Option (List ℕ))
      → read_block (with_cache fs c) (bitmap_block fs type cluster)
        ≡ done (address, with_cache fs c')
      → switch_cluster (with_cache fs c) cluster type false
        ≡ switch_read (bitmap_block fs type cluster) cluster type false (address, with_cache fs c')
  unfolding switch_cluster
  switch_cluster-read cluster c c' address e =
      ap (λ b. read_block (with_cache fs c) b >>= switch_read b cluster type false)
        (bitmap_block_lem fs type cluster)
      ∙ ap (λ r. r >>= switch_read (bitmap_block fs type cluster) cluster type false) e

  pub switch_cluster-Tried :
      (cluster : ℕ) (c : Cache)
      → IsLike fs c
      → Tried cluster (switch_cluster (with_cache fs c) cluster type false)
  unfolding switch_read release_block
  switch_cluster-Tried cluster c like =
      elim (Option-cases (contents fs (bitmap_block fs type cluster))) [
        | inl missing ↦
            unread
              (read_block-none (with_cache fs c) kilobyte (bitmap_block fs type cluster)
                (like.idle _) (like.same _ ∙ missing))
              missing
        | inr (words, there) ↦ tried words there (
            read_block-some (with_cache fs c) kilobyte (bitmap_block fs type cluster) (like.idle _)
              words (like.same _ ∙ there))
      ]
    where
      unread :
          (c' : Cache) × (buffer : BlockBuffer) × (read_block
                (with_cache fs c)
                (bitmap_block fs type cluster)
              ≡ done (none, with_cache fs c'))
            × HasBuffer c c' (bitmap_block fs type cluster) buffer
            × (buffer.busy ≡ false)
            × (buffer.valid ≡ false)
          → contents fs (bitmap_block fs type cluster) ≡ none
          → Tried cluster (switch_cluster (with_cache fs c) cluster type false)
      unread (c', buffer, e, h, idle, invalid) missing =
          subst (Tried cluster) (sym (switch_cluster-read cluster c c' none e)) (
            c',
            refl,
            unread-IsLike _ c c' buffer like missing h idle invalid,
            λ ws at. absurd (ground (arith, missing, at)),
          )

      tried :
          (words : List ℕ)
          → contents fs (bitmap_block fs type cluster) ≡ some words
          → (c' : Cache) × (read_block (with_cache fs c) (bitmap_block fs type cluster)
              ≡ done (some words, with_cache fs c'))
            × HasBuffer c c' (bitmap_block fs type cluster) (held_buffer words)
          → Tried cluster (switch_cluster (with_cache fs c) cluster type false)
      tried words there (c', e, h) =
          elim (Bool-cases (any_free words (bitmap_limit (fs.sb) cluster type))) [
            | inl free ↦
                let ends : switch_cluster (with_cache fs c) cluster type false
                    ≡ do_switch_cluster (with_cache fs c') cluster type words =
                  switch_cluster-read cluster c c' (some words) e ∙ rw free refl in
                subst (Tried cluster) (sym ends)
                  (do_switch_cluster-Tried cluster words (there, free) c c' like h)
            | inr full ↦
                let c'' = update c' (bitmap_block fs type cluster) (some (free_buffer words)) in
                let ends : switch_cluster (with_cache fs c) cluster type false
                    ≡ done (false, with_cache fs c'') =
                  switch_cluster-read cluster c c' (some words) e ∙ rw full refl in
                subst (Tried cluster) (sym ends) (
                  c'',
                  refl,
                  released-IsLike _ c c' words like there h,
                  λ ws at.
                      subst (λ xs. any_free xs (bitmap_limit (fs.sb) cluster type) ≡ false)
                        (ground (arith, there, at)) full,
                )
          ]
