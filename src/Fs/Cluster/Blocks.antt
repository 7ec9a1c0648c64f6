-- ===== src/Fs/Cluster/Blocks.antt =====
-- What a caller sees of the blocks of a device through their buffers (fs/buffer.c), when it reads
-- or writes a block whose buffer nobody holds.
use os_thix.Prelude.{
  ℕ, ◌≡◌, ◌≢◌, refl, true, false, Option, none, some, List, if◌then◌else◌, update, done, asleep,
  arith, inl, inr, Option-cases, Bool-cases,
}
use os_thix.Fs.Cluster.{
  FileSystem, BlockBuffer, is_idle, busy_buffer, get_buffer, read_block, write_block,
}

abbrev pub Cache : Type 0
Cache = ℕ → Option BlockBuffer

-- The words of a block: those of its buffer, if that is valid, or else the device's.
abbrev pub seen : Option BlockBuffer → Option (List ℕ) → Option (List ℕ)
seen none d = d
seen (some buffer) d = if buffer.valid then some (buffer.words) else d

abbrev pub contents : FileSystem → ℕ → Option (List ℕ)
contents fs b = seen (fs.cache b) (fs.device b)

-- The cache differs from the other one in this buffer only.
pub record HasBuffer (old new : Cache) (b : ℕ) (buffer : BlockBuffer) : Type 0 where
  pub here : new b ≡ some buffer
  pub elsewhere : (k : ℕ) → k ≢ b → new k ≡ old k

abbrev pub held_buffer : List ℕ → BlockBuffer
held_buffer ws = record { busy = true; valid = true; words = ws }

abbrev pub free_buffer : List ℕ → BlockBuffer
free_buffer ws = record { busy = false; valid = true; words = ws }

module _ (fs : FileSystem) (kilobyte : fs.sb.s_blksz ≡ 1024) (b : ℕ)
    (idle : is_idle (fs.cache b) ≡ true) where
  pub read_block-some :
      (ws : List ℕ)
      → contents fs b ≡ some ws
      → (c : Cache) × (read_block fs b ≡ done (some ws, record fs { cache = c }))
        × HasBuffer (fs.cache) c b (held_buffer ws)
  unfolding read_block get_buffer
  read_block-some ws e = elim (Option-cases (fs.cache b)) [
    | inl missing ↦ (
      update (update (fs.cache) b (some (busy_buffer none))) b (some (held_buffer ws)),
      ground (arith, missing, kilobyte, e),
      record { here = ground arith; elsewhere = λ k h. ground arith },
    )
    | inr (old, there) ↦ elim (Bool-cases (old.valid)) [
      | inl valid ↦ (
        update (fs.cache) b (some (held_buffer ws)),
        ground (arith, there, kilobyte, e, valid, idle),
        record { here = ground arith; elsewhere = λ k h. ground arith },
      )
      | inr invalid ↦ (
        update (update (fs.cache) b (some (record old { busy = true }))) b (some (held_buffer ws)),
        ground (arith, there, kilobyte, e, invalid, idle),
        record { here = ground arith; elsewhere = λ k h. ground arith },
      )
    ]
  ]

  pub read_block-none :
      contents fs b ≡ none
      → (c : Cache) × (buffer : BlockBuffer) × (read_block fs b
          ≡ done (none, record fs { cache = c }))
        × HasBuffer (fs.cache) c b buffer
        × (buffer.busy ≡ false)
        × (buffer.valid ≡ false)
  unfolding read_block get_buffer
  read_block-none e = elim (Option-cases (fs.cache b)) [
    | inl missing ↦ (
      update (update (fs.cache) b (some (busy_buffer none))) b
          (some (record (busy_buffer none) { busy = false })),
      record (busy_buffer none) { busy = false },
      ground (arith, missing, kilobyte, e),
      record { here = ground arith; elsewhere = λ k h. ground arith },
      refl,
      refl,
    )
    | inr (old, there) ↦ (
      update (update (fs.cache) b (some (record old { busy = true }))) b
          (some (record old { busy = false })),
      record old { busy = false },
      ground (arith, there, kilobyte, e, idle),
      record { here = ground arith; elsewhere = λ k h. ground arith },
      refl,
      ground (arith, there, e),
    )
  ]

  pub write_block-done :
      (ws : List ℕ)
      → (c : Cache) × (write_block fs b ws ≡ done (record fs { cache = c }))
        × HasBuffer (fs.cache) c b (free_buffer ws)
  unfolding write_block get_buffer
  write_block-done ws = (
    update (update (fs.cache) b (some (busy_buffer (fs.cache b)))) b (some (free_buffer ws)),
    ground (arith, kilobyte, idle),
    record { here = ground arith; elsewhere = λ k h. ground arith },
  )

pub write_block-asleep :
    (fs : FileSystem) (b : ℕ) (ws held : List ℕ)
    → fs.sb.s_blksz ≡ 1024
    → fs.cache b ≡ some (held_buffer held)
    → write_block fs b ws ≡ asleep
unfolding write_block get_buffer
write_block-asleep fs b ws held kilobyte there = ground (arith, kilobyte, there)
