-- ===== src/ServiceQueues/Threads.antt =====
-- Goroutines that call `getRequestState` on one queue set, while the flusher clears it: every look at
-- the map, every test of the size and every section under the lock is one step, in any order.
use asserts_otel_processor.Base.{
  ℕ, ◌≡◌, refl, String, true, false, Option, none, some, arith, ◌==◌, if◌then◌else◌, Bool-cases,
  inl, inr, ◌∙◌,
}
use asserts_otel_processor.Base.Maps.{lookup}
use asserts_otel_processor.Config.{Config}
use asserts_otel_processor.ServiceQueues.{Shared, clear_request_states, has_room, locked_section}
use asserts_otel_processor.ServiceQueues.Requests.{
  IsCounted, locked_section-Answer, Answer-IsCounted, Answer-lookup, Answer-keeps,
}

-- Where a call stands: before the first look, after a miss, after the test of the size, returned.
pub data Pc : Type 0 where
  start missed roomy : Pc
  returned : Option ℕ → Pc

pub record Thread : Type 0 where
  pub request : String
  pub pc : Pc

-- One step of a call, on the shared state.
pub data Move (config : Config) (request : String) (g : Shared) : Pc → Shared → Pc → Type 0 where
  hit :
      {a : ℕ}
      → lookup request g.queues.request_states ≡ some a
      → Move config request g start g (returned (some a))
  miss : lookup request g.queues.request_states ≡ none → Move config request g start g missed
  room : has_room config g.queues ≡ true → Move config request g missed g roomy
  no_room : has_room config g.queues ≡ false → Move config request g missed g (returned none)
  lock :
      Move config request g roomy
        (locked_section config request g).1
        (returned (locked_section config request g).0)

pub record System : Type 0 where
  pub shared : Shared
  pub threads : ℕ → Thread

abbrev pub update : (ℕ → Thread) → ℕ → Thread → ℕ → Thread
update f i t j = if i == j then t else f j

pub data Step (config : Config) (s : System) : System → Type 0 where
  move :
      (i : ℕ) {g : Shared} {p : Pc}
      → Move config (s.threads i).request s.shared (s.threads i).pc g p
      → Step config s (record {
        shared = g;
        threads = update s.threads i (record { request = (s.threads i).request; pc = p });
      })
  clear : Step config s (record s { shared = (clear_request_states s.shared).1 })

pub data Reach (config : Config) (s : System) : System → Type 0 where
  here : Reach config s s
  next : {t u : System} → Reach config s t → Step config t u → Reach config s u

Move-IsCounted :
    (config : Config) (request : String) (g : Shared) {p q : Pc} {h : Shared}
    → Move config request g p h q
    → IsCounted config g
    → IsCounted config h
Move-IsCounted config request g (hit e) v = v
Move-IsCounted config request g (miss e) v = v
Move-IsCounted config request g (room e) v = v
Move-IsCounted config request g (no_room e) v = v
Move-IsCounted config request g lock v =
    Answer-IsCounted config request g (locked_section-Answer config request g) v

clear-IsCounted : (config : Config) (g : Shared) → IsCounted config (clear_request_states g).1
unfolding clear_request_states lookup
clear-IsCounted config g = record { counted = refl; within = omega arith; allocated = λ j a e. cc }

-- Whatever the number of goroutines and the order of their steps, the counter stays the number of
-- requests in the map, this never exceeds the limit per service (0, if that is negative), and every
-- address in the map is one of a sampler that was made.
pub Reach-IsCounted :
    (config : Config) {s t : System}
    → IsCounted config s.shared
    → Reach config s t
    → IsCounted config t.shared
Reach-IsCounted config h here = h
Reach-IsCounted config h (next {t = t} r (move i m)) =
    Move-IsCounted config (t.threads i).request t.shared m (Reach-IsCounted config h r)
Reach-IsCounted config h (next {t = t} r clear) = clear-IsCounted config t.shared

-- A run in which the flusher does not come between.
pub data Moves (config : Config) (s : System) : System → Type 0 where
  stay : Moves config s s
  go :
      {t : System} (i : ℕ) {g : Shared} {p : Pc}
      → Moves config s t
      → Move config (t.threads i).request t.shared (t.threads i).pc g p
      → Moves config s (record {
        shared = g;
        threads = update t.threads i (record { request = (t.threads i).request; pc = p });
      })

-- What a call has returned is in the map under its request.
abbrev pub Agrees : System → Type 0
Agrees s =
    (i a : ℕ)
    → (s.threads i).pc ≡ returned (some a)
    → lookup (s.threads i).request s.shared.queues.request_states ≡ some a

-- A step adds to the map at most, and what it returns is there.
record Extends (request : String) (g h : Shared) (p : Pc) : Type 0 where
  keeps :
      (j : String) (a : ℕ)
      → lookup j g.queues.request_states ≡ some a
      → lookup j h.queues.request_states ≡ some a
  there : (a : ℕ) → p ≡ returned (some a) → lookup request h.queues.request_states ≡ some a

Move-Extends :
    (config : Config) (request : String) (g : Shared) {p q : Pc} {h : Shared}
    → Move config request g p h q
    → Extends request g h q
Move-Extends config request g (hit e) = record { keeps = λ j a f. f; there = λ a f. e ∙ (cc) }
Move-Extends config request g (miss e) = record { keeps = λ j a f. f; there = λ a f. cc }
Move-Extends config request g (room e) = record { keeps = λ j a f. f; there = λ a f. cc }
Move-Extends config request g (no_room e) = record { keeps = λ j a f. f; there = λ a f. cc }
Move-Extends config request g lock =
    let ans = locked_section-Answer config request g in
    record {
      keeps = Answer-keeps config request g ans;
      there = λ a f. Answer-lookup config request g ans a (cc);
    }

Moves-Agrees : (config : Config) {s t : System} → Agrees s → Moves config s t → Agrees t
Moves-Agrees config h stay = h
Moves-Agrees config h (go {t = t} i r m) = λ j a e.
    let x = Move-Extends config (t.threads i).request t.shared m in
    elim (Bool-cases (i == j)) [
      | inl same ↦ rw same (x.there a (rw same at e))
      | inr other ↦ rw other (x.keeps _ a (Moves-Agrees config h r j a (rw other at e)))
    ]

-- As long as the map is not cleared, calls for one request that return a sampler return the same.
pub Moves-same :
    (config : Config) {s t : System} (i j a b : ℕ)
    → Agrees s
    → Moves config s t
    → (t.threads i).request ≡ (t.threads j).request
    → (t.threads i).pc ≡ returned (some a)
    → (t.threads j).pc ≡ returned (some b)
    → a ≡ b
Moves-same config {t = t} i j a b h r e p q =
    let all = Moves-Agrees config h r in cc (all i a p, all j b q)
