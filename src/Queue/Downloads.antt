-- ===== src/Queue/Downloads.antt =====
-- `MarkDownloaded` (internal/queue/queue.go): the flag of a job under the calls of concurrent download
-- requests, which may hold different copies of the job.
use filemagic_backend.Prelude.{
  ℕ, zero, suc, ◌≡◌, refl, Bool, true, false, List, [], ◌∷◌, ◌++◌, some, arith, length, get_elem?,
  set, if◌then◌else◌, ◌==◌,
}
use filemagic_backend.Queue.{Queue, Job, Request, mark_downloaded, submit, accepted, enqueue}

-- The calls made by any number of requests, in the order of their atomic operations, with the answers.
unfoldable pub mark_all : List Bool → List Job → List Bool
mark_all flags [] = []
mark_all flags (j ∷ js) =
    let (flags', first) = mark_downloaded flags j in first ∷ mark_all flags' js

-- How many calls for the flag at `a` were answered true.
unfoldable pub wins : ℕ → List Job → List Bool → ℕ
wins a [] bs = 0
wins a (j ∷ js) [] = 0
wins a (j ∷ js) (b ∷ bs) =
    let rest = wins a js bs in if j.downloaded == a then (if b then suc rest else rest) else rest

unfoldable pub calls : ℕ → List Job → ℕ
calls a [] = 0
calls a (j ∷ js) = let rest = calls a js in if j.downloaded == a then suc rest else rest

pub get_elem?-set :
    (xs : List Bool) (i k : ℕ) (v : Bool)
    → get_elem? xs i ≡ some false
    → get_elem? (set xs i v) k ≡ (if i == k then some v else get_elem? xs k)
get_elem?-set [] i k v e = cc
get_elem?-set (x ∷ xs) zero zero v e = ground arith
get_elem?-set (x ∷ xs) zero (suc k) v e = ground arith
get_elem?-set (x ∷ xs) (suc i) zero v e = ground arith
get_elem?-set (x ∷ xs) (suc i) (suc k) v e = ground (arith, get_elem?-set xs i k v e)

-- One call, seen by the flag at `a` when it is set, and when it is not.
mark_set :
    (a : ℕ) (flags : List Bool) (j : Job)
    → get_elem? flags a ≡ some true
    → (get_elem? (mark_downloaded flags j).0 a ≡ some true)
      × ((j.downloaded == a) ≡ true → (mark_downloaded flags j).1 ≡ false)
unfolding mark_downloaded
mark_set a flags j e = ground (arith, get_elem?-set flags j.downloaded a true)

mark_unset :
    (a : ℕ) (flags : List Bool) (j : Job)
    → get_elem? flags a ≡ some false
    → (get_elem? (mark_downloaded flags j).0 a ≡ some (j.downloaded == a))
      × ((j.downloaded == a) ≡ true → (mark_downloaded flags j).1 ≡ true)
unfolding mark_downloaded
mark_unset a flags j e = ground (arith, get_elem?-set flags j.downloaded a true)

-- A flag that is set answers no call with true.
wins_set :
    (a : ℕ) (flags : List Bool) (js : List Job)
    → get_elem? flags a ≡ some true
    → wins a js (mark_all flags js) ≡ 0
unfolding wins mark_all
wins_set a flags [] e = refl
wins_set a flags (j ∷ js) e =
    ground (arith, mark_set a flags j e, wins_set a (mark_downloaded flags j).0 js)

wins_unset :
    (a : ℕ) (flags : List Bool) (js : List Job)
    → get_elem? flags a ≡ some false
    → wins a js (mark_all flags js) ≡ (if calls a js == 0 then 0 else 1)
unfolding wins mark_all calls
wins_unset a flags [] e = refl
wins_unset a flags (j ∷ js) e = ground (
  arith,
  mark_unset a flags j e,
  wins_set a (mark_downloaded flags j).0 js,
  wins_unset a (mark_downloaded flags j).0 js,
)

get_elem?-last : (xs : List Bool) (b : Bool) → get_elem? (xs ++ b ∷ []) (length xs) ≡ some b
get_elem?-last [] b = refl
get_elem?-last (x ∷ xs) b = get_elem?-last xs b

submit_flag :
    (q : Queue) (r : Request) {j : Job} {position : ℕ}
    → (submit q r).1 ≡ accepted j position
    → (j.downloaded ≡ length q.flags) × ((submit q r).0.flags ≡ q.flags ++ false ∷ [])
unfolding submit enqueue
submit_flag q r {j} e = ground arith

-- When `Submit` has accepted a job, then of any sequence of `MarkDownloaded` calls, on any copies of
-- this and of other jobs, exactly one call for this job's flag returns true, if there is one at all.
pub single_download :
    (q : Queue) (r : Request) (js : List Job) {j : Job} {position : ℕ}
    → (submit q r).1 ≡ accepted j position
    → wins j.downloaded js (mark_all (submit q r).0.flags js)
      ≡ (if calls j.downloaded js == 0 then 0 else 1)
single_download q r js {j} e =
    let (flag, flags) = submit_flag q r e in
    wins_unset j.downloaded (submit q r).0.flags js
      (rw (flags, flag) (get_elem?-last q.flags false))
