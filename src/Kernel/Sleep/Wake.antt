-- ===== src/Kernel/Sleep/Wake.antt =====
-- What the loops that wake processes up do to the chain of a bucket.
use os_thix.Prelude.{
  ℕ, ◌≡◌, ◌≢◌, ◌∙◌, refl, Bool, true, false, List, [], ◌∷◌, has, ◌==◌, if◌then◌else◌, update, arith,
  inl, inr, Bool-cases, eq→==,
}
use os_thix.Kernel.Tss.{Tss}
use os_thix.Kernel.Run.{RunLists}
use os_thix.Kernel.Sleep.{SleepTable, Link, bucket, behind, link_value, rouse}
use os_thix.Kernel.Sleep.Table.{Linked, enqueue_all, Linked-frame, enqueue_all-frame}

abbrev pub is_behind : Link → ℕ → Bool
is_behind (bucket i) k = false
is_behind (behind j) k = j == k

abbrev pub is_bucket : Link → ℕ → Bool
is_bucket (bucket i) j = i == j
is_bucket (behind k) j = false

-- The link is not in an entry of the list.
abbrev pub Outside : Link → List ℕ → Type 0
Outside proc ks = (j : ℕ) → has j ks ≡ true → is_behind proc j ≡ false

-- The table `s'` after a walk from the link `proc` on has taken the processes `gone` off the list
-- there and left the processes `left`. `f` is the change of a process that is woken up.
pub record Woken (f : Tss → Tss) (s : SleepTable) (proc : Link) (ks gone left : List ℕ)
    (s' : SleepTable) : Type 0 where
  pub linked : Linked (s'.next) (link_value s' proc) left
  pub addresses : s'.address ≡ s.address
  pub nexts : (k : ℕ) → has k ks ≡ false → is_behind proc k ≡ false → s'.next k ≡ s.next k
  pub heads : (i : ℕ) → is_bucket proc i ≡ false → s'.sleep_hash i ≡ s.sleep_hash i
  pub areas : (k : ℕ) → s'.u_area k ≡ (if has k gone then f (s.u_area k) else s.u_area k)
  pub queued : s'.lists ≡ enqueue_all (s.u_area) gone (s.lists)

module _ (f : Tss → Tss) (keeps : (p : Tss) → (f p).wakeup_priority ≡ p.wakeup_priority) where
  -- Waking a process up leaves the priorities as they are.
  roused :
      (s : SleepTable) (k : ℕ) (ks : List ℕ) (lists : RunLists)
      → enqueue_all (update (s.u_area) k (f (s.u_area k))) ks lists
        ≡ enqueue_all (s.u_area) ks lists
  roused s k ks lists =
      enqueue_all-frame (s.u_area) (update (s.u_area) k (f (s.u_area k))) ks lists
        (λ j. ground (arith, keeps (s.u_area k)))

  pub Woken-hit :
      (s : SleepTable) (proc : Link) (k : ℕ) (ks gone left : List ℕ) (s' : SleepTable)
      → has k gone ≡ false
      → Woken f (rouse f proc k s) proc ks gone left s'
      → Woken f s proc (k ∷ ks) (k ∷ gone) left s'
  unfolding rouse
  Woken-hit s (bucket i) k ks gone left s' once w = record {
    linked = w.linked;
    addresses = w.addresses;
    nexts = λ j h b. ground (arith, w.nexts j);
    heads = λ j b. ground (arith, w.heads j);
    areas = λ j. ground (arith, w.areas j);
    queued = w.queued ∙ roused s k gone _;
  }
  Woken-hit s (behind i) k ks gone left s' once w = record {
    linked = w.linked;
    addresses = w.addresses;
    nexts = λ j h b. ground (arith, w.nexts j);
    heads = λ j b. ground (arith, w.heads j);
    areas = λ j. ground (arith, w.areas j);
    queued = w.queued ∙ roused s k gone _;
  }

  absent : (i : ℕ) (ks : List ℕ) → (has i ks ≡ true → (i == i) ≡ false) → has i ks ≡ false
  absent i ks h = elim (Bool-cases (has i ks)) [ inl e ↦ ground (arith, h e) | inr e ↦ e ]

  pub Woken-miss :
      (s : SleepTable) (proc : Link) (k : ℕ) (ks gone left : List ℕ) (s' : SleepTable)
      → link_value s proc ≡ k
      → k ≢ 0
      → has k ks ≡ false
      → has k left ≡ false
      → Outside proc (k ∷ ks)
      → Woken f s (behind k) ks gone left s'
      → Woken f s proc (k ∷ ks) gone (k ∷ left) s'
  unfolding Linked
  Woken-miss s (bucket i) k ks gone left s' e nz once kept out w = record {
    linked = (w.heads i refl ∙ e, nz, kept, w.linked);
    addresses = w.addresses;
    nexts = λ j h b. ground (arith, w.nexts j);
    heads = λ j b. w.heads j refl;
    areas = w.areas;
    queued = w.queued;
  }
  Woken-miss s (behind i) k ks gone left s' e nz once kept out w = record {
    linked = (
      w.nexts i (absent i ks (λ h. out i (ground (arith, h)))) (ground (arith, out k)) ∙ e,
      nz,
      kept,
      w.linked,
    );
    addresses = w.addresses;
    nexts = λ j h b. ground (arith, w.nexts j);
    heads = λ j b. w.heads j refl;
    areas = w.areas;
    queued = w.queued;
  }

  pub Woken-stay :
      (s : SleepTable) (proc : Link) (ks : List ℕ)
      → Linked (s.next) (link_value s proc) ks
      → Woken f s proc ks [] ks s
  Woken-stay s proc ks linked = record {
    linked = linked;
    addresses = refl;
    nexts = λ k h b. refl;
    heads = λ i b. refl;
    areas = λ k. refl;
    queued = refl;
  }

  -- A process that is woken up leaves the list behind it in its place.
  pub rouse-Linked :
      (s : SleepTable) (proc : Link) (k : ℕ) (ks : List ℕ)
      → Linked (s.next) (s.next k) ks
      → Outside proc ks
      → Linked ((rouse f proc k s).next) (link_value (rouse f proc k s) proc) ks
  unfolding rouse
  rouse-Linked s (bucket i) k ks linked out = ground (arith, linked)
  rouse-Linked s (behind i) k ks linked out = rw (eq→== i i refl) (
      Linked-frame (s.next) (update (s.next) i (s.next k)) (s.next k) ks
        (λ j h. ground (arith, out j h)) linked)

  pub rouse-Woken :
      (s : SleepTable) (proc : Link) (k : ℕ) (ks : List ℕ)
      → Linked (s.next) (s.next k) ks
      → Outside proc ks
      → Woken f s proc (k ∷ ks) (k ∷ []) ks (rouse f proc k s)
  rouse-Woken s proc k ks linked out =
      Woken-hit s proc k ks [] ks _ refl
        (Woken-stay _ proc ks (rouse-Linked s proc k ks linked out))
