-- ===== src/Driver/Tests.antt =====
-- Runs of the kernel log, and its theorems at concrete inputs.
use os_thix.Prelude.{ℕ, ◌+◌, ◌≤◌, ◌≡◌, refl, true, List, [], ◌∷◌, ◌++◌, length, arith, pos, negsuc}
use os_thix.Driver.Klog.{Klog, klog_write, klog_read, finished}
use os_thix.Driver.Klog.Fifo.{unread, IsKlog, IsDelivered, klog_write-unread, klog_read-IsDelivered}

abbrev hi : List ℕ
hi = 104 ∷ 105 ∷ 33 ∷ []

-- A log of four bytes that process 5 has opened.
abbrev log : Klog
log = record {
  klog_size = 4;
  klog_kpid = 5;
  klog_opened = true;
  klog_flags = 0;
  klog_buf = 0 ∷ 0 ∷ 0 ∷ 0 ∷ [];
  klog_rptr = 0;
  klog_wptr = 0;
  klog_free = pos 4;
}

log-IsKlog : IsKlog log
log-IsKlog = omega arith

abbrev written : Klog
written = record log { klog_buf = 104 ∷ 105 ∷ 33 ∷ 0 ∷ []; klog_wptr = 3; klog_free = pos 1 }

written-IsKlog : IsKlog written
written-IsKlog = omega arith

klog_write-unread_example :
    (3 ≡ length hi)
    × (log.klog_wptr + 3 ≤ length (log.klog_buf))
    × (unread written ≡ unread log ++ hi)
    × IsKlog written
unfolding klog_write
klog_write-unread_example = klog_write-unread 2 hi log 3 written log-IsKlog refl

klog_read-IsDelivered_example : IsDelivered 2 written
klog_read-IsDelivered_example = klog_read-IsDelivered 2 written written-IsKlog refl refl

-- Reading two of the three bytes leaves -1 as the number of free bytes.
two_read :
    klog_read 2 written
    ≡ finished (104 ∷ 105 ∷ []) (record written { klog_rptr = 2; klog_free = negsuc 0 })
unfolding klog_read
two_read = refl
