-- ===== src/Fs/Links.antt =====
-- The circular lists of fs/buffer.c and fs/inode.c: entries of a table with a link in each
-- direction, and an entry of the table as the head. The free lists and the buckets of the hash
-- tables are such lists.
pub mod Paths
pub mod Rings
use os_thix.Prelude.{ℕ, Bool, false, List, [], ◌∷◌, ◌==◌, if◌then◌else◌, update}

-- `lnext` and `lprev`, or `hnext` and `hprev`.
pub record Links : Type 0 where
  pub next : ℕ → ℕ
  pub prev : ℕ → ℕ

unfoldable pub set_next : ℕ → ℕ → Links → Links
set_next k v l = record l { next = update (l.next) k v }

unfoldable pub set_prev : ℕ → ℕ → Links → Links
set_prev k v l = record l { prev = update (l.prev) k v }

-- `x[n].prev = x[h].prev; x[n].next = h; x[x[h].prev].next = n; x[h].prev = n`
unfoldable pub insert_tail : ℕ → ℕ → Links → Links
unfolding set_next set_prev
insert_tail h n l =
    let hooked = set_next n h (set_prev n (l.prev h) l) in
    set_prev h n (set_next (hooked.prev h) n hooked)

-- `x[n].next = x[h].next; x[n].prev = h; x[x[h].next].prev = n; x[h].next = n`
unfoldable pub insert_head : ℕ → ℕ → Links → Links
unfolding set_next set_prev
insert_head h n l =
    let hooked = set_prev n h (set_next n (l.next h) l) in
    set_next h n (set_prev (hooked.next h) n hooked)

-- `x[x[n].prev].next = x[n].next; x[x[n].next].prev = x[n].prev`
unfoldable pub unlink : ℕ → Links → Links
unfolding set_next set_prev
unlink n l =
    let passed = set_next (l.prev n) (l.next n) l in set_prev (passed.next n) (passed.prev n) passed
