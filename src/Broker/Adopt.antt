-- ===== src/Broker/Adopt.antt =====
-- reattachSlots and Adopt of internal/broker/bind.go.
use gha_mac_broker.Prelude.{
  ℕ, zero, suc, String, Bool, true, not, ◌&&◌, List, [], ◌∷◌, ◌++◌, Option, none, some, ℤ, pos,
  negsuc, leb_ℤ, ltb, length, if◌then◌else◌,
}
use gha_mac_broker.RunnerPool.Types.{SlotBinding, AdoptedVm}
use gha_mac_broker.GuestAgent.Wire.{WireState}

-- normalizeSlotCount, as a number.
abbrev pub normalize_slot_count : ℤ → ℕ
normalize_slot_count (pos zero) = 1
normalize_slot_count (pos (suc n)) = suc n
normalize_slot_count (negsuc n) = 1

abbrev pub slot_binding : WireState → SlotBinding
slot_binding s = record {
  slot_index = pos s.slot;
  repo = s.meta.repo;
  job_id = s.meta.job_id;
  run_id = s.meta.run_id;
  execution_id = s.execution_id;
  resume_cursor = s.last_sequence;
  bound_at = 0;
  observed_active = true;
}

-- reattachSlots. A slot is a uint32, so it is never negative.
unfoldable pub reattach_slots : List WireState → ℕ → List SlotBinding
reattach_slots [] slot_count = []
reattach_slots (s ∷ ss) slot_count =
    let rest = reattach_slots ss slot_count in
    if not s.running
    then rest
    else if not (ltb s.slot slot_count)
    then rest
    else slot_binding s ∷ rest

-- An entry of ListVMs.
pub record VmEntry : Type 0 where
  pub name : String
  pub state : String

-- What a running VM's guest answers: it cannot be resolved, Reattach fails, or its executions.
pub data Guest : Type 0 where
  unresolved no_reattach : Guest
  answers : List WireState → Guest

pub record Candidate : Type 0 where
  pub name : String
  pub slots : List SlotBinding

-- What Adopt takes from strings and sort.
pub record Names : Type 0 where
  pub has_prefix : String → String → Bool
  pub equal_fold : String → String → Bool
  pub sort_strings : List String → List String

-- The names of the running VMs of the pool.
unfoldable pub pool_names : Names → String → List VmEntry → List String
pool_names n prefix [] = []
pool_names n prefix (entry ∷ entries) =
    let rest = pool_names n prefix entries in
    if not (n.has_prefix entry.name prefix)
    then rest
    else if not (n.equal_fold entry.state "running")
    then rest
    else entry.name ∷ rest

-- The loop over the names: the busy and the idle candidates.
unfoldable pub sort_candidates :
    (String → Guest) → ℕ → List String → List Candidate × List Candidate
unfolding reattach_slots
sort_candidates guest slot_count [] = ([], [])
sort_candidates guest slot_count (name ∷ names) =
    let rest = sort_candidates guest slot_count names in
    elim (guest name) [
      | unresolved ↦ rest
      | no_reattach ↦ rest
      | answers states ↦
          let slots = reattach_slots states slot_count in
          let c : Candidate = record { name = name; slots = slots } in
          if ltb 0 (length slots) then (c ∷ rest.0, rest.1) else (rest.0, c ∷ rest.1)
    ]

-- `limit >= 0 && len(selected) >= limit`
abbrev pub is_full : ℤ → List Candidate → Bool
is_full limit selected = leb_ℤ (pos 0) limit && leb_ℤ limit (pos (length selected))

-- The loop over the busy candidates.
unfoldable pub add_busy : ℤ → List Candidate → List Candidate → List Candidate
add_busy limit [] selected = selected
add_busy limit (c ∷ cs) selected =
    add_busy limit cs (if is_full limit selected then selected else selected ++ c ∷ [])

-- The loop over the idle ones, with the VMs that are torn down, in order.
unfoldable pub add_idle : ℤ → List Candidate → List Candidate → List Candidate × List String
add_idle limit [] selected = (selected, [])
add_idle limit (c ∷ cs) selected =
    let more = add_idle limit cs (selected ++ c ∷ []) in
    let rest = add_idle limit cs selected in
    if is_full limit selected then (rest.0, c.name ∷ rest.1) else more

abbrev pub adopted_vm : String → Candidate → AdoptedVm
adopted_vm image c = record { vm = some (record { name = c.name; image = image }); slots = c.slots }

abbrev pub adopted_vms : String → List Candidate → List AdoptedVm
adopted_vms image [] = []
adopted_vms image (c ∷ cs) = adopted_vm image c ∷ adopted_vms image cs

-- Adopt, with the candidates that it selects and the VMs that it tears down. ListVMs fails with none.
unfoldable pub adopt :
    Names
    → (String → Guest)
    → String
    → Option (List VmEntry)
    → ℤ
    → ℤ
    → Option (List Candidate × List String)
unfolding pool_names sort_candidates add_busy add_idle
adopt n guest prefix entries slot_count limit = elim entries [
  | none ↦ none
  | some vms ↦
      let cs =
        sort_candidates guest (normalize_slot_count slot_count)
          (n.sort_strings (pool_names n prefix vms)) in
      some (add_idle limit cs.1 (add_busy limit cs.0 []))
]
