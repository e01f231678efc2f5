-- ===== src/ServiceQueues/Requests.antt =====
-- One call of `getRequestState`, and the bound on the number of requests.
use asserts_otel_processor.Base.{
  ℕ, suc, ◌≤◌, ◌<◌, ◌≡◌, refl, ◌∙◌, List, [], ◌∷◌, ◌++◌, String, true, false, Option, none, some,
  arith, length, length-append, if◌then◌else◌, Option-cases, Bool-cases, inl, inr, str_eq, eq_iff,
  get_elem?, ap,
}
use asserts_otel_processor.Base.Int.{pos_part}
use asserts_otel_processor.Base.Maps.{lookup, lookup-insert, length-insert_new}
use asserts_otel_processor.Config.{Config}
use asserts_otel_processor.ServiceQueues.{
  ServiceQueues, Shared, has_room, new_trace_sampler, locked_section, get_request_state,
}

-- The counter is the number of requests, which does not exceed the limit (if that is positive), and
-- every address in the map is one of the heap.
pub record IsCounted (config : Config) (g : Shared) : Type 0 where
  pub counted : g.queues.request_count ≡ length g.queues.request_states
  pub within : length g.queues.request_states ≤ pos_part config.limit_per_service
  pub allocated :
      (request : String) (a : ℕ)
      → lookup request g.queues.request_states ≡ some a
      → a < length g.heap

-- How one call may end.
pub data Answer (config : Config) (request : String) (g : Shared) : Option ℕ × Shared → Type 0 where
  known :
      {a : ℕ}
      → lookup request g.queues.request_states ≡ some a
      → Answer config request g (some a, g)
  created :
      {a : ℕ} {h : Shared}
      → lookup request g.queues.request_states ≡ none
      → g.queues.request_count < pos_part config.limit_per_service
      → a ≡ length g.heap
      → get_elem? h.heap a ≡ some (new_trace_sampler config)
      → h.heap ≡ g.heap ++ new_trace_sampler config ∷ []
      → h.queues.request_count ≡ suc g.queues.request_count
      → length h.queues.request_states ≡ suc (length g.queues.request_states)
      → ((j : String)
          → lookup j h.queues.request_states
            ≡ (if str_eq request j then some a else lookup j g.queues.request_states))
      → Answer config request g (some a, h)
  refused :
      lookup request g.queues.request_states ≡ none
      → pos_part config.limit_per_service ≤ g.queues.request_count
      → Answer config request g (none, g)

get_elem?-last {ℓ} :
    {A : Type ℓ} (xs : List A) (x : A) → get_elem? (xs ++ x ∷ []) (length xs) ≡ some x
get_elem?-last [] x = refl
get_elem?-last (y ∷ xs) x = get_elem?-last xs x

pub has_room-true :
    (config : Config) (sq : ServiceQueues)
    → has_room config sq ≡ true
    → sq.request_count < pos_part config.limit_per_service
unfolding has_room
has_room-true config sq h = ground arith

has_room-false :
    (config : Config) (sq : ServiceQueues)
    → has_room config sq ≡ false
    → pos_part config.limit_per_service ≤ sq.request_count
unfolding has_room
has_room-false config sq h = ground arith

pub locked_section-Answer :
    (config : Config) (request : String) (g : Shared)
    → Answer config request g (locked_section config request g)
unfolding locked_section
locked_section-Answer config request g =
    elim (Option-cases (lookup request g.queues.request_states)) [
      | inr (a, e) ↦ rw (e, locked_section) (known e)
      | inl e ↦ elim (Bool-cases (has_room config g.queues)) [
        | inl room ↦
            rw (e, room, locked_section)
              (created e (has_room-true config g.queues room) refl (get_elem?-last g.heap _) refl
                (omega arith) (length-insert_new request _ _ e) (λ j. lookup-insert request j _ _))
        | inr full ↦ rw (e, full, locked_section) (refused e (has_room-false config g.queues full))
      ]
    ]

-- A call answers with the sampler of a known request and changes nothing; for an unknown request
-- it makes a new sampler with two empty queues, if there is room, under which alone the map changes;
-- without room it answers nil and changes nothing.
pub get_request_state-Answer :
    (config : Config) (request : String) (g : Shared)
    → Answer config request g (get_request_state config request g)
unfolding get_request_state
get_request_state-Answer config request g =
    elim (Option-cases (lookup request g.queues.request_states)) [
      | inr (a, e) ↦ rw (e, get_request_state) (known e)
      | inl e ↦ elim (Bool-cases (has_room config g.queues)) [
        | inl room ↦ rw (e, room, get_request_state) (locked_section-Answer config request g)
        | inr full ↦
            rw (e, full, get_request_state) (refused e (has_room-false config g.queues full))
      ]
    ]

pub Answer-IsCounted :
    (config : Config) (request : String) (g : Shared) {r : Option ℕ × Shared}
    → Answer config request g r
    → IsCounted config g
    → IsCounted config r.1
Answer-IsCounted config request g (known e) v = v
Answer-IsCounted config request g (refused e f) v = v
Answer-IsCounted config request g (created {a = a} {h = h} e room fresh made grown count size at)
      v =
    record {
      counted = omega (arith, v.counted);
      within = omega (arith, v.counted, room, size);
      allocated = λ j b found. ground (
        arith,
        at j,
        found,
        fresh,
        v.allocated j b,
        ap length grown,
        length-append g.heap (new_trace_sampler config ∷ []),
      );
    }

-- After an answer the map has the sampler that was returned, and all that it had before.
pub Answer-lookup :
    (config : Config) (request : String) (g : Shared) {r : Option ℕ × Shared}
    → Answer config request g r
    → (a : ℕ) → r.0 ≡ some a
    → lookup request r.1.queues.request_states ≡ some a
Answer-lookup config request g (known e) b f = e ∙ f
Answer-lookup config request g (refused e f) b h = cc
Answer-lookup config request g (created {a = a} e room fresh made grown count size at) b f =
    ground (arith, at request, eq_iff request request, f)

pub Answer-keeps :
    (config : Config) (request : String) (g : Shared) {r : Option ℕ × Shared}
    → Answer config request g r
    → (j : String) (a : ℕ) → lookup j g.queues.request_states ≡ some a
    → lookup j r.1.queues.request_states ≡ some a
Answer-keeps config request g (known e) j b f = f
Answer-keeps config request g (refused e h) j b f = f
Answer-keeps config request g (created {a = a} e room fresh made grown count size at) j b f =
    ground (arith, at j, eq_iff request j, f, e)
