-- ===== src/HostedLoad/Deliveries.antt =====
-- What a sequence of webhook deliveries leaves in the tracker of internal/hostedload.
use gha_mac_broker.Prelude.{
  suc, ◌≡◌, refl, sym, ◌∙◌, ap, Bool, true, false, ◌||◌, List, [], ◌∷◌, ℤ, eqb_ℤ, eqb_ℤ_iff, length,
  arith, if◌then◌else◌, Bool-cases, inl, inr,
}
use gha_mac_broker.HostedLoad.{
  Tracker, new_tracker, remove_id, insert_id, copy_ids, mark_in_progress, mark_completed, reconcile,
  hosted_count,
}

pub data Delivery : Type 0 where
  in_progress completed : ℤ → Delivery
  reconciled : List ℤ → Delivery

unfoldable pub deliver : Delivery → Tracker → Tracker
unfolding mark_in_progress mark_completed reconcile
deliver (in_progress job_id) t = mark_in_progress job_id t
deliver (completed job_id) t = mark_completed job_id t
deliver (reconciled job_ids) t = reconcile job_ids t

unfoldable pub deliver_all : List Delivery → Tracker → Tracker
unfolding deliver
deliver_all [] t = t
deliver_all (d ∷ ds) t = deliver_all ds (deliver d t)

abbrev pub has_id : ℤ → List ℤ → Bool
has_id job_id [] = false
has_id job_id (x ∷ xs) = eqb_ℤ x job_id || has_id job_id xs

-- What the last delivery about a job says of it, and else what held before.
unfoldable pub last_word : ℤ → List Delivery → Bool → Bool
last_word job_id [] b = b
last_word job_id (in_progress j ∷ ds) b = last_word job_id ds (if eqb_ℤ j job_id then true else b)
last_word job_id (completed j ∷ ds) b = last_word job_id ds (if eqb_ℤ j job_id then false else b)
last_word job_id (reconciled job_ids ∷ ds) b = last_word job_id ds (has_id job_id job_ids)

has_id-remove_id :
    (a b : ℤ) (xs : List ℤ) → has_id a (remove_id b xs) ≡ (if eqb_ℤ b a then false else has_id a xs)
unfolding remove_id
has_id-remove_id a b [] = ground arith
has_id-remove_id a b (x ∷ xs) =
    ground (arith, has_id-remove_id a b xs, eqb_ℤ_iff x b, eqb_ℤ_iff x a, eqb_ℤ_iff b a)

has_id-insert_id :
    (a b : ℤ) (xs : List ℤ) → has_id a (insert_id b xs) ≡ (if eqb_ℤ b a then true else has_id a xs)
unfolding insert_id
has_id-insert_id a b xs = ground (arith, has_id-remove_id a b xs)

has_id-copy_ids : (a : ℤ) (xs : List ℤ) → has_id a (copy_ids xs) ≡ has_id a xs
unfolding copy_ids
has_id-copy_ids a [] = refl
has_id-copy_ids a (x ∷ xs) =
    ground (arith, has_id-insert_id a x (copy_ids xs), has_id-copy_ids a xs)

-- After any deliveries, redelivered and reordered ones included, a job is in the tracker exactly if
-- the last delivery about it says so.
pub has_id-deliver_all :
    (job_id : ℤ) (ds : List Delivery) (t : Tracker)
    → has_id job_id (deliver_all ds t).jobs ≡ last_word job_id ds (has_id job_id t.jobs)
unfolding deliver_all deliver mark_in_progress mark_completed reconcile last_word
has_id-deliver_all job_id [] t = refl
has_id-deliver_all job_id (in_progress j ∷ ds) t =
    has_id-deliver_all job_id ds (mark_in_progress j t)
    ∙ ap (last_word job_id ds) (has_id-insert_id job_id j t.jobs)
has_id-deliver_all job_id (completed j ∷ ds) t =
    has_id-deliver_all job_id ds (mark_completed j t)
    ∙ ap (last_word job_id ds) (has_id-remove_id job_id j t.jobs)
has_id-deliver_all job_id (reconciled job_ids ∷ ds) t =
    has_id-deliver_all job_id ds (reconcile job_ids t)
    ∙ ap (last_word job_id ds) (has_id-copy_ids job_id job_ids)

-- One entry for each job.
abbrev pub IsSetOfIds : List ℤ → Type 0
IsSetOfIds [] = Unit
IsSetOfIds (x ∷ xs) = (has_id x xs ≡ false) × IsSetOfIds xs

remove_id-IsSetOfIds : (a : ℤ) (xs : List ℤ) → IsSetOfIds xs → IsSetOfIds (remove_id a xs)
unfolding remove_id
remove_id-IsSetOfIds a [] v = tt
remove_id-IsSetOfIds a (x ∷ xs) v = elim (Bool-cases (eqb_ℤ x a)) [
  | inl e ↦ rw e (remove_id-IsSetOfIds a xs v.1)
  | inr e ↦ rw e (ground (arith, has_id-remove_id x a xs, v.0), remove_id-IsSetOfIds a xs v.1)
]

insert_id-IsSetOfIds : (a : ℤ) (xs : List ℤ) → IsSetOfIds xs → IsSetOfIds (insert_id a xs)
unfolding insert_id
insert_id-IsSetOfIds a xs v =
    (ground (arith, has_id-remove_id a a xs, eqb_ℤ_iff a a), remove_id-IsSetOfIds a xs v)

copy_ids-IsSetOfIds : (xs : List ℤ) → IsSetOfIds (copy_ids xs)
unfolding copy_ids
copy_ids-IsSetOfIds [] = tt
copy_ids-IsSetOfIds (x ∷ xs) = insert_id-IsSetOfIds x (copy_ids xs) (copy_ids-IsSetOfIds xs)

pub deliver_all-IsSetOfIds :
    (ds : List Delivery) (t : Tracker) → IsSetOfIds t.jobs → IsSetOfIds (deliver_all ds t).jobs
unfolding deliver_all deliver mark_in_progress mark_completed reconcile
deliver_all-IsSetOfIds [] t v = v
deliver_all-IsSetOfIds (in_progress j ∷ ds) t v =
    deliver_all-IsSetOfIds ds (mark_in_progress j t) (insert_id-IsSetOfIds j t.jobs v)
deliver_all-IsSetOfIds (completed j ∷ ds) t v =
    deliver_all-IsSetOfIds ds (mark_completed j t) (remove_id-IsSetOfIds j t.jobs v)
deliver_all-IsSetOfIds (reconciled job_ids ∷ ds) t v =
    deliver_all-IsSetOfIds ds (reconcile job_ids t) (copy_ids-IsSetOfIds job_ids)

remove_id-absent : (a : ℤ) (xs : List ℤ) → has_id a xs ≡ false → remove_id a xs ≡ xs
unfolding remove_id
remove_id-absent a [] h = refl
remove_id-absent a (x ∷ xs) h = ground (arith, remove_id-absent a xs)

length-remove_id :
    (a : ℤ) (xs : List ℤ)
    → IsSetOfIds xs
    → has_id a xs ≡ true
    → suc (length (remove_id a xs)) ≡ length xs
unfolding remove_id
length-remove_id a [] v h = cc
length-remove_id a (x ∷ xs) v h =
    ground (arith, v.0, length-remove_id a xs v.1, remove_id-absent a xs, eqb_ℤ_iff x a)

same_ids-length :
    (xs ys : List ℤ)
    → IsSetOfIds xs
    → IsSetOfIds ys
    → ((a : ℤ) → has_id a xs ≡ has_id a ys)
    → length xs ≡ length ys
same_ids-length [] [] v w same = refl
same_ids-length [] (y ∷ ys) v w same = absurd (ground (arith, same y, eqb_ℤ_iff y y))
same_ids-length (x ∷ xs) ys v w same =
    let here : has_id x ys ≡ true = ground (arith, same x, eqb_ℤ_iff x x) in
    let rest =
      same_ids-length xs (remove_id x ys) v.1 (remove_id-IsSetOfIds x ys w)
        λ a. ground (arith, same a, has_id-remove_id a x ys, eqb_ℤ_iff x a, v.0) in
    omega (arith, rest, length-remove_id x ys w here)

-- Two sequences of deliveries to a new tracker that agree on the last word about every job lead to
-- the same count, so that a redelivery never counts a job twice.
deliver_all-count :
    (ds es : List Delivery)
    → ((job_id : ℤ) → last_word job_id ds false ≡ last_word job_id es false)
    → hosted_count (deliver_all ds new_tracker) ≡ hosted_count (deliver_all es new_tracker)
deliver_all-count ds es same =
    same_ids-length _ _ (deliver_all-IsSetOfIds ds new_tracker tt)
      (deliver_all-IsSetOfIds es new_tracker tt)
      λ a. has_id-deliver_all a ds new_tracker ∙ same a ∙ sym (has_id-deliver_all a es new_tracker)
