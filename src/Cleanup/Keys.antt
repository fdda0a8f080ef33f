-- ===== src/Cleanup/Keys.antt =====
-- The map of published jobs has each job under its id (`jobs` in internal/queue/queue.go).
use filemagic_backend.Prelude.{
  Bool, false, ◌||◌, ℕ, ◌≡◌, refl, sym, ap, List, [], ◌∷◌, map, none, some, arith, Text, eq_text,
  eq_text_iff, All, if_each, subst, length, All-map,
}
use filemagic_backend.Dict.{lookup, insert, remove, lookup-insert, lookup-remove}
use filemagic_backend.Queue.{
  Queue, Job, Request, new, new_job, SubmitResult, is_refused, submit, enqueue, get_all_jobs,
  delete_entry, remove_from_order,
}
use filemagic_backend.Queue.Machine.{
  Machine, Step, Reach, start, submits, receives, dequeues, publishes, finishes, releases, deletes,
  unlists, here, next,
}
use filemagic_backend.Queue.Order.{HasDistinctIds, Differs}
use filemagic_backend.Queue.Order.Preserved.{release_slot_frame}

abbrev pub IsKeyed : List (Text × Job) → Type 0
IsKeyed [] = Unit {0}
IsKeyed ((k, j) ∷ m) = (k ≡ j.id) × (lookup k m ≡ none) × IsKeyed m

insert-IsKeyed : (v : Job) (m : List (Text × Job)) → IsKeyed m → IsKeyed (insert v.id v m)
unfolding insert lookup
insert-IsKeyed v [] h = (refl, refl, tt)
insert-IsKeyed v ((k, j) ∷ m) (own, fresh, h) =
    if_each IsKeyed (eq_text k v.id) ((v.id, v) ∷ m) ((k, j) ∷ insert v.id v m)
      (λ hit. (refl, ground (arith, eq_text_iff k v.id), h))
      (λ miss. (
        own,
        ground (arith, lookup-insert v.id k v m, eq_text_iff k v.id, eq_text_iff v.id k),
        insert-IsKeyed v m h,
      ))

remove-IsKeyed : (id : Text) (m : List (Text × Job)) → IsKeyed m → IsKeyed (remove id m)
unfolding remove lookup
remove-IsKeyed id [] h = tt
remove-IsKeyed id ((k, j) ∷ m) (own, fresh, h) =
    if_each IsKeyed (eq_text k id) (remove id m) ((k, j) ∷ remove id m)
      (λ hit. remove-IsKeyed id m h)
      (λ miss. (own, ground (arith, lookup-remove id k m), remove-IsKeyed id m h))

submit-IsKeyed : (q : Queue) (r : Request) → IsKeyed q.jobs → IsKeyed (submit q r).0.jobs
unfolding submit enqueue
submit-IsKeyed q r h =
    if_each (λ (x : Queue × SubmitResult). IsKeyed x.0.jobs) (is_refused q r.owner_ip) _ _
      (λ full. h) (λ room. insert-IsKeyed (new_job r (length q.flags)) q.jobs h)

Step-IsKeyed : {m n : Machine} → Step m n → IsKeyed m.queue.jobs → IsKeyed n.queue.jobs
unfolding delete_entry remove_from_order
Step-IsKeyed {m} (submits r fresh) h = submit-IsKeyed m.queue r h
Step-IsKeyed {m} (receives j rest w c) h = h
Step-IsKeyed {m} (dequeues j w) h = h
Step-IsKeyed {m} (publishes j w) h = insert-IsKeyed _ m.queue.jobs h
Step-IsKeyed {m} (finishes j o now w) h = insert-IsKeyed _ m.queue.jobs h
Step-IsKeyed {m} (releases j w) h = subst IsKeyed (sym (release_slot_frame m.queue j.owner_ip).0) h
Step-IsKeyed {m} (deletes id s) h = remove-IsKeyed id m.queue.jobs h
Step-IsKeyed {m} (unlists id s) h = h

pub Reach-IsKeyed : (size : ℕ) {m : Machine} → Reach (start size) m → IsKeyed m.queue.jobs
unfolding start new
Reach-IsKeyed size here = tt
Reach-IsKeyed size (next r s) = Step-IsKeyed s (Reach-IsKeyed size r)

-- The jobs of the map, by their ids.
abbrev pub IsListed : Queue → List Job → Type 0
IsListed q js = All (λ j. lookup j.id q.jobs ≡ some j) js × HasDistinctIds js

entries-All :
    (m : List (Text × Job)) → IsKeyed m → All (λ j. lookup j.id m ≡ some j) (map (λ e. e.1) m)
unfolding lookup
entries-All [] h = tt
entries-All ((k, j) ∷ m) (own, fresh, h) = (
  ground (arith, eq_text_iff k j.id),
  All-map (λ (x : Job). lookup x.id m ≡ some x) (λ x. lookup x.id ((k, j) ∷ m) ≡ some x)
      (map (λ e. e.1) m) (λ x e. ground (arith, eq_text_iff k x.id)) (entries-All m h),
)

entries-HasDistinctIds : (m : List (Text × Job)) → IsKeyed m → HasDistinctIds (map (λ e. e.1) m)
entries-HasDistinctIds [] h = tt
entries-HasDistinctIds ((k, j) ∷ m) (own, fresh, h) = (
  All-map (λ (x : Job). lookup x.id m ≡ some x) (Differs j.id) (map (λ e. e.1) m)
      (λ x e. ground (arith, own, fresh, eq_text_iff j.id x.id, ap (λ i. lookup i m) own))
      (entries-All m h),
  entries-HasDistinctIds m h,
)

-- What `GetAllJobs` returns in a reachable state: every job once, as its id finds it.
pub get_all_jobs-IsListed :
    (size : ℕ) {m : Machine} → Reach (start size) m → IsListed m.queue (get_all_jobs m.queue)
unfolding get_all_jobs
get_all_jobs-IsListed size {m} r =
    let keyed = Reach-IsKeyed size r in
    (entries-All m.queue.jobs keyed, entries-HasDistinctIds m.queue.jobs keyed)

-- Has one of the jobs this id?
abbrev pub has_id : Text → List Job → Bool
has_id id [] = false
has_id id (j ∷ js) = eq_text j.id id || has_id id js

entries_complete :
    (id : Text) (m : List (Text × Job))
    → IsKeyed m
    → has_id id (map (λ e. e.1) m) ≡ false
    → lookup id m ≡ none
unfolding lookup
entries_complete id [] h e = refl
entries_complete id ((k, j) ∷ m) (own, fresh, h) e =
    rw (subst (λ i. eq_text i id ≡ false) (sym own) (ground arith))
      (entries_complete id m h (ground arith))

-- And every published job is among them.
pub get_all_jobs_complete :
    (size : ℕ) {m : Machine} (id : Text)
    → Reach (start size) m
    → has_id id (get_all_jobs m.queue) ≡ false
    → lookup id m.queue.jobs ≡ none
unfolding get_all_jobs
get_all_jobs_complete size {m} id r e = entries_complete id m.queue.jobs (Reach-IsKeyed size r) e
