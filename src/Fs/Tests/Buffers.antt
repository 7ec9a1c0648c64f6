-- ===== src/Fs/Tests/Buffers.antt =====
-- The theorems on the buffer cache (fs/buffer.c) and on the hash tables at concrete inputs.
use os_thix.Prelude.{ℕ, ◌≡◌, refl, true, false, some, List, [], ◌∷◌, arith}
use os_thix.Fs.Hash.{hash_search}
use os_thix.Fs.Hash.Search.{IsFound, hash_search-IsFound, is_for}
use os_thix.Fs.Buffer.{
  Buffers, Chunk, GetTurn, buf_get_turn, buf_release, buf_master_list_insert, buf_update,
  empty_buffers,
}
use os_thix.Fs.Buffer.Invariant.{IsCache, cached}
use os_thix.Fs.Buffer.Steps.{given}
use os_thix.Fs.Buffer.Init.{no_entries, empty_buffers-IsCache, insert_unused}
use os_thix.Fs.Buffer.Get.{Fetched, buf_get_turn-Fetched}
use os_thix.Fs.Buffer.Release.{with_released, buf_release-IsCache}

abbrev chunk : Chunk
chunk = record { at = 4096; is_dedicated = false }

abbrev two_unused : Buffers
two_unused = buf_master_list_insert 3 (buf_master_list_insert 2 empty_buffers)

two_unused-IsCache : IsCache two_unused (2 ∷ 3 ∷ []) [] no_entries
two_unused-IsCache =
    insert_unused 3 (buf_master_list_insert 2 empty_buffers) (2 ∷ [])
      (insert_unused 2 empty_buffers [] empty_buffers-IsCache (omega arith) (omega arith) refl)
      (omega arith) (omega arith) refl

buf_get_turn-Fetched_example :
    (t : GetTurn) × (buf_get_turn true chunk 5 9 1024 two_unused ≡ some t)
    × Fetched two_unused (2 ∷ 3 ∷ []) [] no_entries 5 9 t
buf_get_turn-Fetched_example =
    buf_get_turn-Fetched two_unused (2 ∷ 3 ∷ []) [] no_entries true chunk 5 9 two_unused-IsCache
      (omega arith)

-- Buffer 2 has block 9 of device 5, and is busy.
abbrev busy_two : Buffers
busy_two = buf_update 2 5 9 1024 chunk empty_buffers

busy_two_lem :
    (bucket : ℕ → List ℕ) × IsCache busy_two [] [] bucket
    × (cached (busy_two.hash) bucket 2 ≡ true)
    × (is_for (busy_two.hash) 5 9 2 ≡ true)
unfolding buf_update empty_buffers
busy_two_lem =
    given (empty_buffers.hash) (empty_buffers.list) (empty_buffers.busy) 0 0 [] [] no_entries
      empty_buffers-IsCache 2 (omega arith) (omega arith) refl refl 5 9
      (λ k inside. absurd (ground (arith, inside)))

two_is_busy : busy_two.busy 2 ≡ true
unfolding buf_update
two_is_busy = refl

buf_release-IsCache_example :
    IsCache (buf_release 2 busy_two) [] (with_released (busy_two.valid 2) 2 []) (busy_two_lem.0)
buf_release-IsCache_example =
    buf_release-IsCache busy_two [] [] (busy_two_lem.0) 2 (busy_two_lem.1) (busy_two_lem.2)
      two_is_busy

hash_search-IsFound_example :
    (k : ℕ) × (hash_search 4096 199 5 9 (busy_two.hash) ≡ some k)
    × IsFound 199 (busy_two.hash) (busy_two_lem.0) 5 9 k
hash_search-IsFound_example =
    hash_search-IsFound 4096 199 5 9 (busy_two.hash) (busy_two_lem.0) (omega arith)
      ((busy_two_lem.1).table)
