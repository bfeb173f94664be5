-- ===== src/RunnerPool/AdoptedSlots.antt =====
-- What the bindings of a VM leave in the slots of its worker, by internal/runnerpool/adopt.go.
use gha_mac_broker.Prelude.{
  Bool-cases, inl, inr, ℕ, ◌≡◌, ◌≢◌, ◌⊎◌, refl, sym, ap, ◌∙◌, subst, true, List, [], ◌∷◌, some, ℤ,
  pos, negsuc, ◌==◌, ==_iff, get_elem?, get_elem?-set_ne, get_elem?-set_self, get_elem?-lt, Has,
  arith,
}
use gha_mac_broker.RunnerPool.Types.{Slot, Worker, SlotBinding, adopted_slot_binding_busy}
use gha_mac_broker.RunnerPool.Adopt.{adopted_slot, bind_adopted, bind_all}

-- The binding names the slot and says that it is busy.
abbrev pub Claims : SlotBinding → ℕ → Type 0
Claims b j = (b.slot_index ≡ pos j) × (adopted_slot_binding_busy b ≡ true)

hit_at :
    (now : ℕ) (b : SlotBinding) (j : ℕ) (w : Worker) {s : Slot}
    → Claims b j
    → get_elem? w.slots j ≡ some s
    → get_elem? (bind_adopted now b w).slots j ≡ some (adopted_slot now b)
unfolding bind_adopted
hit_at now b j w {s} (at, busy) here =
    let hit = get_elem?-set_self w.slots j (adopted_slot now b) (get_elem?-lt j w.slots here) in
    ground (arith, at, busy, here, hit)

miss_at :
    (now : ℕ) (b : SlotBinding) (j k : ℕ) (w : Worker) {s : Slot}
    → b.slot_index ≡ pos k
    → k ≢ j
    → get_elem? w.slots j ≡ some s
    → get_elem? (bind_adopted now b w).slots j ≡ some s
unfolding bind_adopted
miss_at now b j k w {s} at other here =
    let miss = get_elem?-set_ne w.slots k j (adopted_slot now b) other in
    ground (arith, at, here, miss)

-- One binding either leaves a slot alone or claims it and fills it.
bound :
    (now : ℕ) (b : SlotBinding) (j : ℕ) (w : Worker) {s : Slot}
    → get_elem? w.slots j ≡ some s
    → (get_elem? (bind_adopted now b w).slots j ≡ some s)
      ⊎ (Claims b j × (get_elem? (bind_adopted now b w).slots j ≡ some (adopted_slot now b)))
bound now b j w {s} here = by_index b.slot_index refl
  where
    by_index :
        (i : ℤ)
        → b.slot_index ≡ i
        → (get_elem? (bind_adopted now b w).slots j ≡ some s)
          ⊎ (Claims b j × (get_elem? (bind_adopted now b w).slots j ≡ some (adopted_slot now b)))
    by_index (negsuc n) at = unfold bind_adopted in inl (ground (arith, at, here))
    by_index (pos k) at = elim (Bool-cases (k == j)) [
      | inr n ↦ inl (miss_at now b j k w at (λ q. absurd (ground (arith, n, q, ==_iff k j))) here)
      | inl y ↦ elim (Bool-cases (adopted_slot_binding_busy b)) [
        | inl busy ↦
            let claims : Claims b j = (at ∙ ap pos ((==_iff k j).0 y), busy) in
            inr (claims, hit_at now b j w claims here)
        | inr idle ↦ unfold bind_adopted in inl (ground (arith, at, here, idle))
      ]
    ]

pub bind_all-keeps :
    (now : ℕ) (bs : List SlotBinding) (j : ℕ) (w : Worker) (t : Slot)
    → ((b : SlotBinding) → Has b bs → Claims b j → adopted_slot now b ≡ t)
    → get_elem? w.slots j ≡ some t
    → get_elem? (bind_all now bs w).slots j ≡ some t
unfolding bind_all
bind_all-keeps now [] j w t same here = here
bind_all-keeps now (b ∷ bs) j w t same here =
    bind_all-keeps now bs j (bind_adopted now b w) t (λ c m. same c (inr m))
      (elim (bound now b j w here) [
        | inl kept ↦ kept
        | inr (claims, filled) ↦ filled ∙ ap some (same b (inl refl) claims)
      ])

pub bind_all-fills :
    (now : ℕ) (bs : List SlotBinding) (j : ℕ) (w : Worker) (t : Slot) (b : SlotBinding) (s : Slot)
    → ((c : SlotBinding) → Has c bs → Claims c j → adopted_slot now c ≡ t)
    → Has b bs
    → Claims b j
    → get_elem? w.slots j ≡ some s
    → get_elem? (bind_all now bs w).slots j ≡ some t
unfolding bind_all
bind_all-fills now [] j w t b s same m claims here = absurd m
bind_all-fills now (c ∷ bs) j w t b s same (inl q) claims here =
    let mine : Claims c j = subst (λ x. Claims x j) (sym q) claims in
    bind_all-keeps now bs j (bind_adopted now c w) t (λ d n. same d (inr n))
      (hit_at now c j w mine here ∙ ap some (same c (inl refl) mine))
bind_all-fills now (c ∷ bs) j w t b s same (inr m) claims here = elim (bound now c j w here) [
  | inl kept ↦
      bind_all-fills now bs j (bind_adopted now c w) t b s (λ d n. same d (inr n)) m claims kept
  | inr (_, filled) ↦
      bind_all-fills now bs j (bind_adopted now c w) t b (adopted_slot now c)
        (λ d n. same d (inr n)) m claims filled
]
