-- ===== src/Fs/Buffer.antt =====
-- fs/buffer.c: the buffer cache. The bytes in the buffers and the tables of sleepers and of memory
-- pages are not part of its state.
pub mod Lists
pub mod Invariant
pub mod Steps
pub mod Get
pub mod Release
pub mod Init
use os_thix.Prelude.{
  ℕ, zero, suc, ltb, ◌+◌, ◌-◌, ◌%◌, Bool, true, false, not, ◌||◌, Option, none, some, ◌==◌,
  if◌then◌else◌, update,
}
use os_thix.Fs.Links.{Links, insert_tail, insert_head, unlink}
use os_thix.Fs.Hash.{Hash, hash_insert, hash_delete, hash_search, unhashed_link}

abbrev pub max_buffers : ℕ
max_buffers = 4096

abbrev pub buffers_buckets_no : ℕ
buffers_buckets_no = 199

-- `buf_vect`, field by field, and the counts of the two lists. Entry 0 is the head of the list of
-- unused buffers, entry 1 that of the free ones.
pub record Buffers : Type 0 where
  pub hash : Hash
  pub list : Links
  pub busy : ℕ → Bool
  pub in_demand : ℕ → Bool
  pub delayed_write : ℕ → Bool
  pub valid : ℕ → Bool
  pub dedicated : ℕ → Bool
  pub size : ℕ → ℕ
  pub address : ℕ → ℕ
  pub free_buffers : ℕ
  pub master_free_buffers : ℕ

unfoldable pub buf_master_list_insert : ℕ → Buffers → Buffers
buf_master_list_insert n b = record b {
  list = insert_tail 0 n (b.list);
  master_free_buffers = b.master_free_buffers + 1;
}

unfoldable pub buf_master_list_delete : ℕ → Buffers → Buffers
buf_master_list_delete n b = record b {
  list = unlink n (b.list);
  master_free_buffers = b.master_free_buffers - 1;
}

unfoldable pub buf_list_insert_head : ℕ → Buffers → Buffers
buf_list_insert_head n b = record b {
  list = insert_head 1 n (b.list);
  free_buffers = b.free_buffers + 1;
}

unfoldable pub buf_list_insert_tail : ℕ → Buffers → Buffers
buf_list_insert_tail n b = record b {
  list = insert_tail 1 n (b.list);
  free_buffers = b.free_buffers + 1;
}

unfoldable pub buf_list_delete : ℕ → Buffers → Buffers
buf_list_delete n b = record b { list = unlink n (b.list); free_buffers = b.free_buffers - 1 }

unfoldable pub buf_hash_insert : ℕ → Buffers → Buffers
buf_hash_insert n b = record b { hash = hash_insert max_buffers buffers_buckets_no n (b.hash) }

unfoldable pub buf_hash_delete : ℕ → Buffers → Buffers
buf_hash_delete n b = record b { hash = hash_delete n (b.hash) }

unfoldable pub buf_hash_search : ℕ → ℕ → Buffers → Option ℕ
buf_hash_search device block b = hash_search max_buffers buffers_buckets_no device block (b.hash)

-- What `vm_alloc` returns: an address, and whether it is in a dedicated page.
pub record Chunk : Type 0 where
  pub at : ℕ
  pub is_dedicated : Bool

unfoldable pub buf_update_mem : ℕ → ℕ → Chunk → Buffers → Buffers
buf_update_mem n size chunk b =
    let keeps = not (b.address n == 0) in
    let fits = b.size n == size in
    record b {
      address =
          if keeps
          then if fits then b.address else update (b.address) n (chunk.at)
          else update (b.address) n (chunk.at);
      dedicated =
          if keeps
          then if fits then b.dedicated else update (b.dedicated) n (chunk.is_dedicated)
          else update (b.dedicated) n (chunk.is_dedicated);
      size =
          if keeps then if fits then b.size else update (b.size) n size else update (b.size) n size;
      valid = update (b.valid) n false;
    }

-- `buf_update`; the field `block` has 24 bits.
unfoldable pub buf_update : ℕ → ℕ → ℕ → ℕ → Chunk → Buffers → Buffers
unfolding buf_hash_insert buf_update_mem
buf_update n device block size chunk b = buf_hash_insert n (
    buf_update_mem n size chunk (record b {
      hash = record (b.hash) {
        device = update (b.hash.device) n device;
        block = update (b.hash.block) n (block % 16777216);
      };
      busy = update (b.busy) n true;
    }))

unfoldable pub buf_remove : ℕ → Buffers → Buffers
unfolding buf_list_delete buf_hash_delete buf_master_list_insert
buf_remove n b =
    let gone = buf_hash_delete n (buf_list_delete n b) in
    buf_master_list_insert n (record gone { address = update (gone.address) n 0 })

-- `buf_release`: a buffer with valid contents is the last to be reused, another the first.
unfoldable pub buf_release : ℕ → Buffers → Buffers
unfolding buf_list_insert_tail buf_list_insert_head
buf_release n b =
    let asked = record b { in_demand = update (b.in_demand) n false } in
    let listed =
      (if b.valid n then buf_list_insert_tail n asked else buf_list_insert_head n asked) in
    record listed { busy = update (b.busy) n false }

unfoldable pub buf_write : ℕ → Buffers → Buffers
unfolding buf_release
buf_write n b =
    buf_release n (record b {
      valid = update (b.valid) n true;
      delayed_write = update (b.delayed_write) n true;
    })

-- `_buf_read`, where `reads` tells whether the driver can read the block; 0 is a read error.
unfoldable pub fill_buffer : Bool → ℕ → Buffers → ℕ × Buffers
unfolding buf_release
fill_buffer reads n b =
    if b.valid n || reads
    then (n, record b { valid = update (b.valid) n true })
    else (0, buf_release n (record b { delayed_write = update (b.delayed_write) n false }))

-- How a turn of the loop of `buf_get` ends; all but the first and the last go round again.
-- `waits_buffer`: it sleeps on a busy buffer. `waits_any`: on any buffer. `flushes`: it has
-- `buf_flush` write buffers that are marked for it. `shrinks`: it has buffers removed for their
-- pages. `bad_size` is the panic.
pub data GetTurn : Type 0 where
  got : ℕ → Buffers → GetTurn
  waits_buffer : ℕ → Buffers → GetTurn
  waits_any : Buffers → GetTurn
  flushes : Buffers → GetTurn
  shrinks : Buffers → GetTurn
  bad_size : GetTurn

abbrev pub demand : ℕ → Buffers → Buffers
demand n b = record b { in_demand = update (b.in_demand) n true }

-- The part of the loop for a block that is not in the cache. `pages` is the test for free pages.
unfoldable pub get_new : Bool → Chunk → ℕ → ℕ → ℕ → Buffers → GetTurn
unfolding buf_update buf_master_list_delete buf_list_delete buf_hash_delete
get_new pages chunk device block size b =
    let unused = b.list.next 0 in
    let oldest = b.list.next 1 in
    if not pages
    then shrinks b
    else if not (b.master_free_buffers == 0)
    then got unused (buf_update unused device block size chunk (buf_master_list_delete unused b))
    else if b.free_buffers == 0
    then waits_any b
    else if b.busy oldest
    then waits_buffer oldest (demand oldest b)
    else if b.delayed_write oldest
    then flushes b
    else got oldest (
        buf_update oldest device block size chunk
          (buf_hash_delete oldest (buf_list_delete oldest b)))

-- The part of the loop after the search.
unfoldable pub get_found : Bool → Chunk → ℕ → ℕ → ℕ → ℕ → Buffers → GetTurn
unfolding get_new buf_list_delete
get_found pages chunk device block size n b =
    if n == 0
    then get_new pages chunk device block size b
    else if b.busy n
    then waits_buffer n (demand n b)
    else got n (buf_list_delete n (record b { busy = update (b.busy) n true }))

-- A turn of the loop of `buf_get`; `none` means that the search has run out of fuel.
unfoldable pub buf_get_turn : Bool → Chunk → ℕ → ℕ → ℕ → Buffers → Option GetTurn
unfolding get_found buf_hash_search
buf_get_turn pages chunk device block size b =
    if size == 1024
    then elim (buf_hash_search device block b) [
      | none ↦ none
      | some n ↦ some (get_found pages chunk device block size n b)
    ]
    else some bad_size

-- `buf_vect` before the unused buffers are listed: all fields 0 but the marks of the entries that are
-- in no bucket, and the links of the heads to themselves.
abbrev pub own_link : ℕ → ℕ → ℕ
own_link start k =
    if ltb k max_buffers then start else if ltb k (max_buffers + buffers_buckets_no) then k else 0

unfoldable pub empty_buffers : Buffers
empty_buffers = record {
  hash = record {
    links = record { next = own_link unhashed_link; prev = own_link 0 };
    device = λ k. 0;
    block = λ k. 0;
  };
  list = record { next = λ k. if k == 1 then 1 else 0; prev = λ k. if k == 1 then 1 else 0 };
  busy = λ k. false;
  in_demand = λ k. false;
  delayed_write = λ k. false;
  valid = λ k. false;
  dedicated = λ k. false;
  size = λ k. 0;
  address = λ k. 0;
  free_buffers = 0;
  master_free_buffers = 0;
}

-- `for (; i < ...; buf_master_list_insert(i++))`, for a number of entries from `n` on.
unfoldable pub list_unused : ℕ → ℕ → Buffers → Buffers
unfolding buf_master_list_insert
list_unused zero n b = b
list_unused (suc count) n b = list_unused count (suc n) (buf_master_list_insert n b)

-- The tables of `buf_init`. The sizes that it sets behind the buckets are those of the swapper's
-- entries, and the pages that it sets aside are memory management's.
unfoldable pub buf_init : Buffers
unfolding list_unused empty_buffers
buf_init = list_unused (max_buffers - 2) 2 empty_buffers
