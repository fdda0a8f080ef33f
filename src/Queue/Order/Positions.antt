-- ===== src/Queue/Order/Positions.antt =====
-- What a client that polls is told: positions in the queue (internal/queue/queue.go).
use filemagic_backend.Prelude.{
  ℕ, zero, suc, ◌+◌, ◌≡◌, refl, List, [], ◌∷◌, ◌++◌, some, arith, get_elem?, All, Text, eq_text_iff,
  subst, ap, ◌∙◌,
}
use native.Mathlib.Nat.{zero-add}
use mathlib.Core.Option.{some-injective}
use filemagic_backend.Queue.{Job, get_position, position_from}
use filemagic_backend.Queue.Machine.{
  Machine, Worker, Reach, IsSettled, start, idle, received, dequeued, running, finished, here, next,
}
use filemagic_backend.Queue.Order.{
  unsettled, listed, ids, Differs, HasDistinctIds, Ordered, settled-Differs, listed-All,
}
use filemagic_backend.Queue.Order.Preserved.{Step-Ordered}

start-Ordered : (size : ℕ) → Ordered (start size)
unfolding start
start-Ordered size = record {
  order = refl;
  published = tt;
  distinct = tt;
  waiting = tt;
  processing = tt;
}

pub Reach-Ordered : (size : ℕ) {m : Machine} → Reach (start size) m → Ordered m
Reach-Ordered size here = start-Ordered size
Reach-Ordered size (next r s) = Step-Ordered s (Reach-Ordered size r)

listed-HasDistinctIds :
    (w : Worker) (js : List Job)
    → HasDistinctIds (unsettled w ++ js)
    → HasDistinctIds (listed w ++ js)
listed-HasDistinctIds idle js d = d
listed-HasDistinctIds (received j) js d = d
listed-HasDistinctIds (dequeued j) js d = d.1
listed-HasDistinctIds (running j) js d = d.1
listed-HasDistinctIds (finished j) js d = d

All-get_elem? {κ} :
    (P : Job → Type κ) (js : List Job) (k : ℕ) {j : Job} → All P js → get_elem? js k ≡ some j → P j
All-get_elem? P [] k p e = cc
All-get_elem? P (x ∷ js) zero p e = subst P (some-injective _ _ e) p.0
All-get_elem? P (x ∷ js) (suc k) p e = All-get_elem? P js k p.1 e

position_from_found :
    (i k : ℕ) (js : List Job) {j : Job}
    → HasDistinctIds js
    → get_elem? js k ≡ some j
    → position_from i j.id (ids js) ≡ i + k + 1
unfolding position_from
position_from_found i k [] d e = cc
position_from_found i zero (x ∷ js) {j} d e =
    ground (arith, ap (λ (y : Job). y.id) (some-injective _ _ e), eq_text_iff x.id j.id)
position_from_found i (suc k) (x ∷ js) {j} d e =
    ground (arith, All-get_elem? (Differs x.id) js k d.0 e, position_from_found (i + 1) k js d.1 e)

position_from_absent :
    (i : ℕ) (id : Text) (js : List Job) → All (Differs id) js → position_from i id (ids js) ≡ 0
unfolding position_from
position_from_absent i id [] d = refl
position_from_absent i id (x ∷ js) d =
    ground (arith, eq_text_iff id x.id, eq_text_iff x.id id, position_from_absent (i + 1) id js d.1)

-- In every reachable state `GetPosition` is right: the k-th job from the front (from 0) of those that
-- wait, the one that the worker has received and not yet taken off the order included, is reported
-- at position k + 1.
pub position_exact :
    (size k : ℕ) {m : Machine} {j : Job}
    → Reach (start size) m
    → get_elem? (listed m.worker ++ m.queue.job_chan) k ≡ some j
    → get_position m.queue j.id ≡ k + 1
unfolding get_position
position_exact size k {m} {j} r e =
    let o = Reach-Ordered size r in
    rw o.order (
      position_from_found 0 k (listed m.worker ++ m.queue.job_chan)
        (listed-HasDistinctIds m.worker _ o.distinct) e
      ∙ ap (λ (n : ℕ). n + 1) (zero-add k))

-- In every reachable state an id whose published job is done or failed is reported at position 0.
pub settled_position :
    (size : ℕ) (id : Text) {m : Machine}
    → Reach (start size) m
    → IsSettled m.queue id
    → get_position m.queue id ≡ 0
unfolding get_position
settled_position size id {m} r s =
    let o = Reach-Ordered size r in
    let kept = listed m.worker ++ m.queue.job_chan in
    rw o.order (
      position_from_absent 0 id kept
        (settled-Differs m.queue id kept s (listed-All _ m.worker _ o.published)))
