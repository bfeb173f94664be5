-- ===== src/Broker/Selection.antt =====
-- Which VMs Adopt of internal/broker/bind.go takes over and which it tears down.
use gha_mac_broker.Prelude.{
  inl, inr, ℕ, String, ◌≤◌, ◌≡◌, refl, false, List, [], ◌∷◌, ◌++◌, some, ℤ, pos, negsuc, pos_part,
  ◌⊎◌, leb_ℤ, ltb, length, length-append, All, All-append_one, if◌then◌else◌, if_cases, arith,
}
use gha_mac_broker.RunnerPool.Types.{SlotBinding}
use gha_mac_broker.GuestAgent.Wire.{WireState}
use gha_mac_broker.Broker.Adopt.{
  normalize_slot_count, reattach_slots, VmEntry, Guest, unresolved, no_reattach, answers, Candidate,
  Names, pool_names, sort_candidates, is_full, add_busy, add_idle, adopt,
}

-- The guest answered, and the candidate carries the slots of its running executions.
abbrev pub IsReported : (String → Guest) → ℕ → Candidate → Type 0
IsReported guest slot_count c =
    (states : List WireState) × (guest c.name ≡ answers states)
    × (c.slots ≡ reattach_slots states slot_count)

-- The guest answered that none of the pool's slots has a running execution.
abbrev pub IsIdle : (String → Guest) → ℕ → String → Type 0
IsIdle guest slot_count name =
    (states : List WireState) × (guest name ≡ answers states)
    × (reattach_slots states slot_count ≡ [])

abbrev IsSpare : (String → Guest) → ℕ → Candidate → Type 0
IsSpare guest slot_count c = IsReported guest slot_count c × IsIdle guest slot_count c.name

no_slots : (bs : List SlotBinding) → ltb 0 (length bs) ≡ false → bs ≡ []
no_slots [] h = refl
no_slots (b ∷ bs) h = absurd (ground (arith, h))

sorted :
    (guest : String → Guest) (slot_count : ℕ) (names : List String)
    → All (IsReported guest slot_count) (sort_candidates guest slot_count names).0
      × All (IsSpare guest slot_count) (sort_candidates guest slot_count names).1
unfolding sort_candidates
sorted guest slot_count [] = (tt, tt)
sorted guest slot_count (name ∷ names) = by_guest (guest name) refl (sorted guest slot_count names)
  where
    rest : List Candidate × List Candidate
    rest = sort_candidates guest slot_count names

    Good : List Candidate × List Candidate → Type 0
    Good r = All (IsReported guest slot_count) r.0 × All (IsSpare guest slot_count) r.1

    by_guest :
        (g : Guest)
        → guest name ≡ g
        → Good rest
        → Good (elim g [
          | unresolved ↦ rest
          | no_reattach ↦ rest
          | answers states ↦
              let slots = reattach_slots states slot_count in
              let c : Candidate = record { name = name; slots = slots } in
              if ltb 0 (length slots) then (c ∷ rest.0, rest.1) else (rest.0, c ∷ rest.1)
        ])
    by_guest unresolved e ih = ih
    by_guest no_reattach e ih = ih
    by_guest (answers states) e ih =
        if_cases Good (ltb 0 (length (reattach_slots states slot_count)))
          (λ _. (((states, e, refl), ih.0), ih.1))
          (λ z. (ih.0, (((states, e, refl), (states, e, no_slots _ z)), ih.1)))

module _ (limit : ℕ) where
  next-length :
      (c : Candidate) (selected : List Candidate)
      → length selected ≤ limit
      → length (if is_full (pos limit) selected then selected else selected ++ c ∷ []) ≤ limit
  next-length c selected h = ground (arith, h, length-append selected (c ∷ []))

  busy-length :
      (cs selected : List Candidate)
      → length selected ≤ limit
      → length (add_busy (pos limit) cs selected) ≤ limit
  unfolding add_busy
  busy-length [] selected h = h
  busy-length (c ∷ cs) selected h =
      busy-length cs (if is_full (pos limit) selected then selected else selected ++ c ∷ [])
        (next-length c selected h)

  idle-length :
      (cs selected : List Candidate)
      → length selected ≤ limit
      → length (add_idle (pos limit) cs selected).0 ≤ limit
  unfolding add_idle
  idle-length [] selected h = h
  idle-length (c ∷ cs) selected h =
      if_cases (λ (r : List Candidate × List String). length r.0 ≤ limit)
        (is_full (pos limit) selected) (λ _. idle-length cs selected h)
        λ room.
          idle-length cs (selected ++ c ∷ [])
            (ground (arith, room, length-append selected (c ∷ [])))

module _ (P : Candidate → Type 0) (Q : String → Type 0) where
  busy-All :
      (limit : ℤ) (cs selected : List Candidate)
      → All P cs
      → All P selected
      → All P (add_busy limit cs selected)
  unfolding add_busy
  busy-All limit [] selected v w = w
  busy-All limit (c ∷ cs) selected v w =
      busy-All limit cs _ v.1 (
        if_cases (All P) (is_full limit selected) (λ _. w) (λ _. All-append_one P selected c w v.0))

  idle-All :
      (limit : ℤ) (cs selected : List Candidate)
      → All (λ c. P c × Q c.name) cs
      → All P selected
      → All P (add_idle limit cs selected).0 × All Q (add_idle limit cs selected).1
  unfolding add_idle
  idle-All limit [] selected v w = (w, tt)
  idle-All limit (c ∷ cs) selected v w =
      if_cases (λ (r : List Candidate × List String). All P r.0 × All Q r.1)
        (is_full limit selected)
        (λ _. let r = idle-All limit cs selected v.1 w in (r.0, (v.0.1, r.1)))
        (λ _. idle-All limit cs (selected ++ c ∷ []) v.1 (All-append_one P selected c w v.0.0))

-- Adopt, when the VMs can be listed: it selects no more VMs than a limit from 0 on allows; each
-- selected VM's guest has answered, and the VM comes with the slots of its running executions; and
-- each VM that is torn down has a guest that answered that no slot of the pool has a running
-- execution. So a VM with a running job in a slot of the pool, or one that does not answer, is never
-- torn down.
pub adopt-IsSafe :
    (n : Names) (guest : String → Guest) (prefix : String) (vms : List VmEntry)
    (slot_count limit : ℤ)
    → (selected : List Candidate) × (torn_down : List String) × (adopt n guest prefix
          (some vms)
          slot_count
          limit
        ≡ some (selected, torn_down))
      × ((leb_ℤ (pos 0) limit ≡ false) ⊎ (length selected ≤ pos_part limit))
      × All (IsReported guest (normalize_slot_count slot_count)) selected
      × All (IsIdle guest (normalize_slot_count slot_count)) torn_down
unfolding adopt
adopt-IsSafe n guest prefix vms slot_count limit =
    let count = normalize_slot_count slot_count in
    let cs = sort_candidates guest count (n.sort_strings (pool_names n prefix vms)) in
    let ok = sorted guest count (n.sort_strings (pool_names n prefix vms)) in
    let all =
      idle-All (IsReported guest count) (IsIdle guest count) limit cs.1 (add_busy limit cs.0 [])
        ok.1 (busy-All (IsReported guest count) (IsIdle guest count) limit cs.0 [] ok.0 tt) in
    (
      (add_idle limit cs.1 (add_busy limit cs.0 [])).0,
      (add_idle limit cs.1 (add_busy limit cs.0 [])).1,
      refl,
      by_limit limit refl,
      all.0,
      all.1,
    )
  where
    by_limit :
        (l : ℤ)
        → limit ≡ l
        → let count = normalize_slot_count slot_count in
          let cs = sort_candidates guest count (n.sort_strings (pool_names n prefix vms)) in
          (leb_ℤ (pos 0) limit ≡ false)
          ⊎ (length (add_idle limit cs.1 (add_busy limit cs.0 [])).0 ≤ pos_part limit)
    by_limit (negsuc k) e = inl (rw e (ground arith))
    by_limit (pos bound) e =
        let cs =
          sort_candidates guest (normalize_slot_count slot_count)
            (n.sort_strings (pool_names n prefix vms)) in
        inr (
          rw e (
            idle-length bound cs.1 (add_busy (pos bound) cs.0 [])
              (busy-length bound cs.0 [] (omega arith))))
