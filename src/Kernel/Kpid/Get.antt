-- ===== src/Kernel/Kpid/Get.antt =====
-- `get_kpid` of kernel/kpid.c and the process list.
use os_thix.Prelude.{
  ℕ, zero, suc, ◌+◌, ◌-◌, ◌<◌, ◌≤◌, ◌≡◌, ◌≢◌, refl, sym, ◌⊎◌, inl, inr, Bool, true, false, List, [],
  ◌∷◌, ◌++◌, update, arith, has, has-append, length-append, Bool-cases, eq-cases, some, none,
  Option, Option-cases, leb, not, ◌&&◌,
}
use os_thix.Kernel.Kpid.{
  KpidStruct, KpidTable, idle, set_next, append_kpid, get_kpid, first_unused, ff_kpid,
  system_process_max,
}
use os_thix.Kernel.Kpid.Chain.{
  Links, NoDup, last, Holds, has-last, last-append, NoDup-append, Links-used,
}

Links-append :
    (d : ℕ → KpidStruct) (p k : ℕ) (xs : List ℕ)
    → Links d p xs
    → NoDup xs
    → has p xs ≡ false
    → k ≢ p
    → k ≢ 0
    → has k xs ≡ false
    → Links
        (set_next (update d k (record { used = true; next = 0; prev = last p xs })) (last p xs) k)
        p
        (xs ++ k ∷ [])
Links-append d p k [] l n out ne z new = ground arith
Links-append d p k (x ∷ xs) l n out ne z new = (
  ground (arith, has-last x xs),
  ground (arith, has-last x xs),
  ground (arith, has-last x xs),
  l.3,
  Links-append d x k xs l.4 n.1 n.0 (ground arith) z (ground arith),
)

append_kpid-Holds :
    (t : KpidTable) (xs : List ℕ) (k : ℕ)
    → Holds t xs
    → k ≢ 0
    → has 0 xs ≡ false
    → has k xs ≡ false
    → Holds (append_kpid t k) (xs ++ k ∷ [])
unfolding append_kpid
append_kpid-Holds t xs k v z root new = record {
  links = rw (v.tail) (Links-append t.kpid_data 0 k xs v.links v.nodup root z z new);
  nodup = NoDup-append xs k v.nodup new;
  tail = sym (last-append 0 k xs);
  kpids = omega (arith, v.kpids, length-append xs (k ∷ []));
  unused = λ j ne h. ground (arith, has-append j xs (k ∷ []), v.unused j ne, has-last idle xs);
}

first_unused-some :
    (d : ℕ → KpidStruct) (k left : ℕ) {r : ℕ}
    → first_unused d k left ≡ some r
    → ((d r).used ≡ false) × (k ≤ r) × (r < k + left)
unfolding first_unused
first_unused-some d k zero e = absurd (ground arith)
first_unused-some d k (suc left) {r} e = elim (Bool-cases ((d k).used)) [
  | inl u ↦
      let ih = first_unused-some d (suc k) left {r = r} (ground arith) in
      (ih.0, omega (arith, ih.1), omega (arith, ih.2))
  | inr u ↦ (ground arith, ground arith, ground arith)
]

pub root_outside : (t : KpidTable) (xs : List ℕ) → Holds t xs → has 0 xs ≡ false
root_outside t xs v = elim (Bool-cases (has 0 xs)) [
  | inl e ↦ absurd ((Links-used t.kpid_data 0 xs 0 v.links e).1 refl)
  | inr e ↦ e
]

free_outside :
    (t : KpidTable) (xs : List ℕ) (k : ℕ)
    → Holds t xs
    → (t.kpid_data k).used ≡ false
    → has k xs ≡ false
free_outside t xs k v u = elim (Bool-cases (has k xs)) [
  | inl e ↦ let w = Links-used t.kpid_data 0 xs k v.links e in cc (w.0)
  | inr e ↦ e
]

-- What `get_kpid` returns, `k` and the table `t'`, where the list before was `xs`.
abbrev pub Got : KpidTable → List ℕ → ℕ → KpidTable → Type 0
Got t xs k t' =
    ((k ≡ 0) × (t' ≡ t))
    ⊎ ((ff_kpid ≤ k) × (k < system_process_max) × (has k xs ≡ false) × Holds t' (xs ++ k ∷ []))

-- `get_kpid` either returns 0 and changes nothing, or returns a kpid from `FF_KPID` up to the end
-- of the table that was on no list, and puts it behind the others.
pub get_kpid-Got :
    (superuser : Bool) (t : KpidTable) (xs : List ℕ)
    → Holds t xs
    → let (k, t') = get_kpid superuser t in Got t xs k t'
unfolding get_kpid
get_kpid-Got superuser t xs v =
    elim (Bool-cases (leb (system_process_max - 2) t.kpids && not superuser)) [
      | inl e ↦ rw e (inl (refl, refl))
      | inr e ↦ rw e (found (first_unused t.kpid_data ff_kpid (system_process_max - ff_kpid)) refl)
    ]
  where
    found :
        (o : Option ℕ)
        → first_unused t.kpid_data ff_kpid (system_process_max - ff_kpid) ≡ o
        → let r : ℕ × KpidTable = elim o [ none ↦ (0, t) | some k ↦ (k, append_kpid t k) ] in
          Got t xs r.0 r.1
    found none q = inl (refl, refl)
    found (some k) q =
        let (u, lo, hi) = first_unused-some t.kpid_data ff_kpid 61 q in
        let new = free_outside t xs k v u in
        inr (lo, hi, new, append_kpid-Holds t xs k v (omega (arith, lo)) (root_outside t xs v) new)

first_unused-none :
    (d : ℕ → KpidStruct) (k left j : ℕ)
    → first_unused d k left ≡ none
    → k ≤ j
    → j < k + left
    → (d j).used ≡ true
unfolding first_unused
first_unused-none d k zero j e lo hi = absurd (omega arith)
first_unused-none d k (suc left) j e lo hi = elim (Bool-cases ((d k).used)) [
  | inl u ↦ elim (eq-cases j k) [
    | inl q ↦ rw q u
    | inr ne ↦ first_unused-none d (suc k) left j (ground arith) (omega arith) (omega arith)
  ]
  | inr u ↦ absurd (ground arith)
]

-- `get_kpid` fails only where an ordinary process finds at least 62 kpids in use, or where every
-- slot from `FF_KPID` on is in use.
pub get_kpid-zero :
    (superuser : Bool) (t : KpidTable)
    → (get_kpid superuser t).0 ≡ 0
    → ((62 ≤ t.kpids) × (superuser ≡ false))
      ⊎ ((j : ℕ) → ff_kpid ≤ j → j < system_process_max → (t.kpid_data j).used ≡ true)
unfolding get_kpid
get_kpid-zero superuser t e =
    elim (Bool-cases (leb (system_process_max - 2) t.kpids && not superuser)) [
      | inl l ↦ inl (ground arith)
      | inr l ↦
          elim (Option-cases (first_unused t.kpid_data ff_kpid (system_process_max - ff_kpid))) [
            | inl n ↦ inr (λ j lo hi. first_unused-none t.kpid_data ff_kpid 61 j n lo hi)
            | inr (k, q) ↦
                let found = first_unused-some t.kpid_data ff_kpid 61 q in absurd (ground arith)
          ]
    ]
