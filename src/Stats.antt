-- ===== src/Stats.antt =====
-- One counter of the statistics store (internal/stats/cloudflare_kv.go): the increments that wait, the
-- write that is retried, and the last value that the service confirmed. The service's answers to `getKey`
-- and `putKey` are arguments; values stay far under 2 ^ 63.
pub mod Counted
pub mod Store
pub mod Both
mod Examples
use filemagic_backend.Prelude.{
  ℕ, ◌+◌, max, ◌==◌, if◌then◌else◌, Bool, List, [], ◌∷◌, Option, none, some,
}

-- `pending`, `writes[key]` and `confirmed[key]`, where a missing key reads as 0.
pub record Counter : Type 0 where
  pub pending : ℕ
  pub write : Option ℕ
  pub confirmed : ℕ

-- The counter, and the value that the service holds.
pub record World : Type 0 where
  pub counter : Counter
  pub remote : ℕ

-- How a PUT ends: confirmed, taken over without an answer, or lost.
pub data PutEnd : Type 0 where
  answered unanswered lost : PutEnd

unfoldable pub new_counter : Counter
new_counter = record { pending = 0; write = none; confirmed = 0 }

unfoldable pub increment : ℕ → Counter → Counter
increment n c = record c { pending = c.pending + n }

-- The first half of `flush` for one key: what to write. `get` is the answer of `getKey`, and `meanwhile`
-- the increments that come between the look at `pending` and its swap.
unfoldable pub prepare : ℕ → Option ℕ → Counter → Counter
prepare meanwhile get c =
    let added = increment meanwhile c in
    elim c.write [
      | some v ↦ added
      | none ↦ if c.pending == 0 then added else elim get [
        | none ↦ added
        | some current ↦ record c {
          pending = 0;
          write = some (max current c.confirmed + added.pending);
        }
      ]
    ]

-- The second half: `putKey`, and what a success changes.
unfoldable pub put_write : PutEnd → World → World
put_write result w = elim w.counter.write [
  | none ↦ w
  | some v ↦ elim result [
    | answered ↦ record { counter = record w.counter { write = none; confirmed = v }; remote = v }
    | unanswered ↦ record w { remote = v }
    | lost ↦ w
  ]
]

unfoldable pub flush : ℕ → Option ℕ → PutEnd → World → World
flush meanwhile get result w =
    put_write result (record w { counter = prepare meanwhile get w.counter })

pub data Event : Type 0 where
  incremented : Event
  flushed : ℕ → Option ℕ → PutEnd → Event

unfoldable pub happen : World → Event → World
happen w incremented = record w { counter = increment 1 w.counter }
happen w (flushed meanwhile get result) = flush meanwhile get result w

unfoldable pub run : World → List Event → World
run w [] = w
run w (e ∷ es) = run (happen w e) es
