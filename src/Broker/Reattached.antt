-- ===== src/Broker/Reattached.antt =====
-- The bindings that reattachSlots of internal/broker/bind.go makes of the registry's executions.
use gha_mac_broker.Prelude.{
  Bool-cases, Option-cases, str_eq, inl, inr, ℕ, String, ◌<◌, ◌≡◌, ◌⊎◌, refl, sym, ap, ◌∙◌, subst,
  true, List, [], ◌∷◌, some, ltb, get_elem?, Has, arith,
}
use gha_mac_broker.RunnerPool.Types.{SlotBinding}
use gha_mac_broker.GuestExec.Types.{Execution}
use gha_mac_broker.GuestExec.Maps.{lookup}
use gha_mac_broker.GuestExec.Keys.{id_key, slot_key}
use gha_mac_broker.GuestExec.Registry.Listing.{ExecutionState, state_of, states_of}
use gha_mac_broker.GuestAgent.Convert.{execution_state_to_proto, reattach}
use gha_mac_broker.Broker.Adopt.{slot_binding, reattach_slots}

abbrev pub binding_of : ExecutionState → SlotBinding
binding_of s = slot_binding (execution_state_to_proto s)

-- The head of the list is left out, or its binding comes first.
head_slot :
    (s : ExecutionState) (ss : List ExecutionState) (count : ℕ)
    → (reattach_slots (reattach (s ∷ ss)) count ≡ reattach_slots (reattach ss) count)
      ⊎ ((s.running ≡ true)
          × (reattach_slots (reattach (s ∷ ss)) count
              ≡ binding_of s ∷ reattach_slots (reattach ss) count))
unfolding reattach_slots
head_slot s ss count = elim (Bool-cases s.running) [
  | inr off ↦ inl (ground (arith, off))
  | inl on ↦ elim (Bool-cases (ltb s.slot count)) [
    | inr out ↦ inl (ground (arith, on, out))
    | inl small ↦ inr (on, ground (arith, on, small))
  ]
]

head_binding :
    (s : ExecutionState) (ss : List ExecutionState) (count : ℕ)
    → s.running ≡ true
    → s.slot < count
    → reattach_slots (reattach (s ∷ ss)) count ≡ binding_of s ∷ reattach_slots (reattach ss) count
unfolding reattach_slots
head_binding s ss count on small = ground (arith, on, small)

-- Each binding is of a running execution, and each of those in a slot of the pool has one.
pub binding-Has :
    (b : SlotBinding) (ss : List ExecutionState) (count : ℕ)
    → Has b (reattach_slots (reattach ss) count)
    → (s : ExecutionState) × (Has s ss) × (s.running ≡ true) × (b ≡ binding_of s)
binding-Has b [] count m = absurd (unfold reattach_slots in m)
binding-Has b (s ∷ ss) count m = elim (head_slot s ss count) [
  | inl e ↦ let (x, k, on, q) = binding-Has b ss count (subst (Has b) e m) in (x, inr k, on, q)
  | inr (on, e) ↦ elim (subst (Has b) e m) [
    | inl q ↦ (s, inl refl, on, sym q)
    | inr n ↦ let (x, k, also, q) = binding-Has b ss count n in (x, inr k, also, q)
  ]
]

pub Has-binding :
    (s : ExecutionState) (ss : List ExecutionState) (count : ℕ)
    → Has s ss
    → s.running ≡ true
    → s.slot < count
    → Has (binding_of s) (reattach_slots (reattach ss) count)
Has-binding s [] count m on small = absurd m
Has-binding s (x ∷ ss) count (inl q) on small =
    let mine : Has (binding_of x) (reattach_slots (reattach (x ∷ ss)) count) =
      subst (Has (binding_of x))
        (sym (
          head_binding x ss count (ap (λ y. y.running) q ∙ on)
            (subst (λ y. y.slot < count) (sym q) small)))
        (inl refl) in
    subst (λ y. Has (binding_of y) (reattach_slots (reattach (x ∷ ss)) count)) q mine
Has-binding s (x ∷ ss) count (inr m) on small = elim (head_slot x ss count) [
  | inl e ↦ subst (Has (binding_of s)) (sym e) (Has-binding s ss count m on small)
  | inr (_, e) ↦ subst (Has (binding_of s)) (sym e) (inr (Has-binding s ss count m on small))
]

-- Each state is of an execution in the heap, and each execution that its id leads to has one.
pub state-Has :
    (s : ExecutionState) (heap : List Execution) (m : List (String × ℕ))
    → Has s (states_of heap m)
    → (h : ℕ) × (e : Execution) × (get_elem? heap h ≡ some e) × (s ≡ state_of e)
unfolding states_of
state-Has s heap [] q = absurd q
state-Has s heap ((id, h) ∷ m) q = elim (Option-cases (get_elem? heap h)) [
  | inl gone ↦ state-Has s heap m (subst (Has s) (ground (arith, gone)) q)
  | inr (e, at) ↦
      let split : Has s (state_of e ∷ states_of heap m) =
        subst (Has s) {y = state_of e ∷ states_of heap m} (ground (arith, at)) q in
      elim split [ inl same ↦ (h, e, at, sym same) | inr later ↦ state-Has s heap m later ]
]

pub Has-state :
    (h : ℕ) (e : Execution) (id : String) (heap : List Execution) (m : List (String × ℕ))
    → lookup id m ≡ some h
    → get_elem? heap h ≡ some e
    → Has (state_of e) (states_of heap m)
unfolding states_of lookup
Has-state h e id heap [] l at = cc
Has-state h e id heap ((b, k) ∷ m) l at = elim (Bool-cases (str_eq b id)) [
  | inl hit ↦
      let here : states_of heap ((b, k) ∷ m) ≡ state_of e ∷ states_of heap m =
        ground (arith, hit, l, at) in
      subst (Has (state_of e)) (sym here) (inl refl)
  | inr miss ↦
      let rest = Has-state h e id heap m (ground (arith, miss, l)) at in
      elim (Option-cases (get_elem? heap k)) [
        | inl gone ↦ subst (Has (state_of e)) (ground (arith, gone)) rest
        | inr (g, there) ↦
            let cons : states_of heap ((b, k) ∷ m) ≡ state_of g ∷ states_of heap m =
              ground (arith, there) in
            subst (Has (state_of e)) (sym cons) (inr rest)
      ]
]
