-- ===== src/Sampling/Known.antt =====
-- Which requests have a sampler, and that they keep it while the flusher does not run.
use asserts_otel_processor.Base.{
  ℕ, ◌≡◌, refl, sym, ◌∙◌, String, Option, some, Bool-cases, inl, inr, str_eq, eq_iff,
}
use asserts_otel_processor.Base.Maps.{StringMap, lookup, insert, lookup-insert}
use asserts_otel_processor.Config.{Config}
use asserts_otel_processor.ServiceQueues.{ServiceQueues, Shared, get_request_state}
use asserts_otel_processor.ServiceQueues.Requests.{
  Answer, known, created, refused, get_request_state-Answer,
}
use asserts_otel_processor.Sampling.Batch.{Sampler, queues_or_new, request_state}

-- The request has a sampler under the service's key.
pub record IsKnown (key request : String) (services : StringMap ServiceQueues) : Type 0 where
  pub queues : ServiceQueues
  pub address : ℕ
  pub service_found : lookup key services ≡ some queues
  pub request_found : lookup request queues.request_states ≡ some address

-- A queue set that keeps the requests of the one before.
abbrev Extends : ServiceQueues → ServiceQueues → Type 0
Extends old new =
    (request : String) (a : ℕ)
    → lookup request old.request_states ≡ some a
    → lookup request new.request_states ≡ some a

insert-IsKnown :
    (key other request : String) (services : StringMap ServiceQueues) (new : ServiceQueues)
    → Extends (queues_or_new (lookup key services)) new
    → IsKnown other request services
    → IsKnown other request (insert key new services)
insert-IsKnown key other request services new extends h = elim (Bool-cases (str_eq key other)) [
  | inl same ↦
      let e : key ≡ other = (eq_iff key other).0 same in
      let found : lookup key services ≡ some h.queues = rw e h.service_found in
      record {
        queues = new;
        address = h.address;
        service_found = rw (lookup-insert key other new services, same) refl;
        request_found = extends request h.address (rw found h.request_found);
      }
  | inr differ ↦ record {
    queues = h.queues;
    address = h.address;
    service_found = rw (lookup-insert key other new services, differ) h.service_found;
    request_found = h.request_found;
  }
]

insert-IsKnown_new :
    (key request : String) (services : StringMap ServiceQueues) (new : ServiceQueues) (a : ℕ)
    → lookup request new.request_states ≡ some a
    → IsKnown key request (insert key new services)
insert-IsKnown_new key request services new a e = record {
  queues = new;
  address = a;
  service_found = rw (lookup-insert key key new services, (eq_iff key key).1 refl) refl;
  request_found = e;
}

-- What an answer does to the queue set: it extends it, and a sampler that is returned is found.
pub record Effect (old : ServiceQueues) (request : String) (r : Option ℕ × Shared) : Type 0 where
  pub extends : Extends old r.1.queues
  pub found : (a : ℕ) → r.0 ≡ some a → lookup request r.1.queues.request_states ≡ some a
  pub answered : (a : ℕ) → lookup request old.request_states ≡ some a → r.0 ≡ some a

Answer-Effect :
    {config : Config} {request : String} {g : Shared} {r : Option ℕ × Shared}
    → Answer config request g r
    → Effect g.queues request r
Answer-Effect (known {a = a} e) = record {
  extends = λ other b f. f;
  found = λ b f. let g : b ≡ a = cc in rw g e;
  answered = λ b f. sym e ∙ f;
}
Answer-Effect {request = request}
      (created {a = a} absent room at_end newest grown count size there) =
    record {
      extends = λ other b f. elim (Bool-cases (str_eq request other)) [
        | inl same ↦
            let same_text : request ≡ other = (eq_iff request other).0 same in
            let missing = rw same_text at absent in absurd (cc)
        | inr differ ↦ rw (there other, differ) f
      ];
      found =
          λ b f. let g : b ≡ a = cc in rw (there request, (eq_iff request request).1 refl, g) refl;
      answered = λ b f. absurd (cc);
    }
Answer-Effect (refused e full) = record {
  extends = λ other b f. f;
  found = λ b f. absurd (cc);
  answered = λ b f. absurd (cc);
}

module _ (key request : String) (s : Sampler) where
  abbrev sq : ServiceQueues
  sq = queues_or_new (lookup key s.services)

  effect : Effect sq request (
      get_request_state s.core.threshold_helper.config request
        (record { queues = sq; heap = s.core.samplers }))
  effect = Answer-Effect (
      get_request_state-Answer s.core.threshold_helper.config request
        (record { queues = sq; heap = s.core.samplers }))

  pub request_state-keeps :
      (k r : String) → IsKnown k r s.services → IsKnown k r (request_state key request s).1.services
  unfolding request_state
  request_state-keeps k r h = insert-IsKnown key k r s.services _ effect.extends h

  pub request_state-IsKnown :
      (q : ℕ)
      → (request_state key request s).0 ≡ some q
      → IsKnown key request (request_state key request s).1.services
  unfolding request_state
  request_state-IsKnown q e = insert-IsKnown_new key request s.services _ q (effect.found q e)

  -- A known request is found.
  pub request_state-found :
      IsKnown key request s.services → (q : ℕ) × ((request_state key request s).0 ≡ some q)
  unfolding request_state
  request_state-found h =
      (h.address, effect.answered h.address (rw h.service_found h.request_found))
