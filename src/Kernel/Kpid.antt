-- ===== src/Kernel/Kpid.antt =====
-- kernel/kpid.c: the table of kernel process ids, and the doubly linked list through it.
pub mod Chain
pub mod Get
pub mod Release
use os_thix.Prelude.{
  ℕ, zero, suc, ◌+◌, ◌-◌, ◌≡◌, Bool, true, false, not, ◌&&◌, Option, none, some, List, [], ◌∷◌,
  ◌==◌, leb, if◌then◌else◌, update,
}

-- `kpid_struct`
pub record KpidStruct : Type 0 where
  pub used : Bool
  pub next : ℕ
  pub prev : ℕ

abbrev pub idle : ℕ
idle = 0

abbrev pub swapper : ℕ
swapper = 1

abbrev pub init : ℕ
init = 2

-- `FF_KPID`
abbrev pub ff_kpid : ℕ
ff_kpid = 3

abbrev pub system_process_max : ℕ
system_process_max = 64

-- The variables of kpid.c.
pub record KpidTable : Type 0 where
  pub kpid_data : ℕ → KpidStruct
  pub kpid_tail : ℕ
  pub kpids : ℕ

-- `kpid_data[k].next = n` and `kpid_data[k].prev = n`
abbrev pub set_next : (ℕ → KpidStruct) → ℕ → ℕ → ℕ → KpidStruct
set_next d k n = update d k (record (d k) { next = n })

abbrev pub set_prev : (ℕ → KpidStruct) → ℕ → ℕ → ℕ → KpidStruct
set_prev d k n = update d k (record (d k) { prev = n })

-- The loop of `get_kpid` at `kpid`, with `left` slots left.
unfoldable pub first_unused : (ℕ → KpidStruct) → ℕ → ℕ → Option ℕ
first_unused d kpid zero = none
first_unused d kpid (suc left) = elim ((d kpid).used) [
  | true ↦ first_unused d (suc kpid) left
  | false ↦ some kpid
]

-- The body of the loop of `get_kpid` at a free slot.
unfoldable pub append_kpid : KpidTable → ℕ → KpidTable
append_kpid t kpid = record {
  kpid_data =
      set_next (update t.kpid_data kpid (record { used = true; next = 0; prev = t.kpid_tail }))
        t.kpid_tail kpid;
  kpid_tail = kpid;
  kpids = suc (t.kpids);
}

-- `get_kpid`: 0 where no slot is free. `superuser` is `superuser()` of the caller.
unfoldable pub get_kpid : Bool → KpidTable → ℕ × KpidTable
unfolding first_unused append_kpid
get_kpid superuser t =
    if leb (system_process_max - 2) t.kpids && not superuser
    then (0, t)
    else elim (first_unused t.kpid_data ff_kpid (system_process_max - ff_kpid)) [
      | none ↦ (0, t)
      | some kpid ↦ (kpid, append_kpid t kpid)
    ]

-- `release_kpid`
unfoldable pub release_kpid : KpidTable → ℕ → KpidTable
release_kpid t kpid =
    let d = update t.kpid_data kpid (record (t.kpid_data kpid) { used = false }) in
    if kpid == t.kpid_tail
    then record {
      kpid_data = set_next d ((d kpid).prev) 0;
      kpid_tail = (d kpid).prev;
      kpids = t.kpids - 1;
    }
    else (let d' = set_next d ((d kpid).prev) ((d kpid).next) in
        record t { kpid_data = set_prev d' ((d' kpid).next) ((d' kpid).prev); kpids = t.kpids - 1 })

-- The table after `kpid_init`, with the initial values of the variables.
abbrev pub kpid_init : KpidTable
kpid_init = record {
  kpid_data =
      update
        (update
          (update (λ k. record { used = false; next = 0; prev = 0 }) idle
            (record { used = true; next = swapper; prev = 0 }))
          swapper (record { used = true; next = init; prev = idle }))
        init (record { used = true; next = 0; prev = swapper });
  kpid_tail = init;
  kpids = 3;
}

-- The kpids that `for (kpid = k; kpid; kpid = NEXT(kpid))` visits, with `fuel` rounds.
unfoldable pub walk : ℕ → (ℕ → KpidStruct) → ℕ → List ℕ
walk zero d k = []
walk (suc fuel) d k = elim (k == 0) [ true ↦ [] | false ↦ k ∷ walk fuel d ((d k).next) ]
