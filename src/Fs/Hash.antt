-- ===== src/Fs/Hash.antt =====
-- The hash tables of fs/buffer.c and fs/inode.c, which are the same code: the heads of the buckets
-- stand behind the entries of the table, from `base` on.
pub mod Search
pub mod Invariant
pub mod Rekey
pub mod Delete
pub mod Reuse
use Prim.Native.Nat.{bit_xor}
use os_thix.Prelude.{
  ℕ, zero, suc, ◌+◌, ◌%◌, Bool, true, false, ◌&&◌, Option, none, some, ◌==◌, if◌then◌else◌,
}
use os_thix.Fs.Links.{Links, set_next, unlink, insert_head}

-- The links of the buckets, and the two numbers that an entry is sought by.
pub record Hash : Type 0 where
  pub links : Links
  pub device : ℕ → ℕ
  pub block : ℕ → ℕ

-- `(device ^ block) % buckets`
abbrev pub bucket_number : ℕ → ℕ → ℕ → ℕ
bucket_number buckets device block = bit_xor device block % buckets

unfoldable pub hash_insert : ℕ → ℕ → ℕ → Hash → Hash
unfolding insert_head
hash_insert base buckets n h = record h {
  links = insert_head (base + bucket_number buckets (h.device n) (h.block n)) n (h.links);
}

-- An entry that is in no bucket has 0xFFFF for its link.
abbrev pub unhashed_link : ℕ
unhashed_link = 65535

unfoldable pub hash_delete : ℕ → Hash → Hash
unfolding set_next unlink
hash_delete n h = record h {
  links =
      if h.links.next n == unhashed_link
      then h.links
      else set_next n unhashed_link (unlink n (h.links));
}

-- The loop of the search, from an entry on; `none` means that the fuel ran out.
unfoldable pub search_from : ℕ → ℕ → ℕ → ℕ → Hash → ℕ → Option ℕ
search_from zero index device block h n = none
search_from (suc fuel) index device block h n =
    let rest = search_from fuel index device block h (h.links.next n) in
    if n == index
    then some 0
    else if (h.device n == device) && (h.block n == block)
    then some n
    else rest

-- The search, with 0 for an entry that is not there; a bucket has at most `base` entries.
unfoldable pub hash_search : ℕ → ℕ → ℕ → ℕ → Hash → Option ℕ
unfolding search_from
hash_search base buckets device block h =
    let index = base + bucket_number buckets device block in
    search_from (suc base) index device block h (h.links.next index)
