-- ===== src/Sampling/FlushAll.antt =====
-- A tick of the flusher exports everything that is queued, once, and empties the queue sets.
use asserts_otel_processor.Base.{
  ℕ, ◌<◌, ◌≡◌, refl, sym, ap, subst, String, List, [], ◌∷◌, ◌++◌, Option, none, some, All, map,
  get_elem?, get_elem?_lt, length, Yields, yields, Yields-bind, Yields-map,
}
use asserts_otel_processor.Base.Maps.{StringMap}
use asserts_otel_processor.PriorityQueue.{Item}
use asserts_otel_processor.ServiceQueues.{
  ServiceQueues, TraceSampler, clear_request_states, new_service_queues,
}
use asserts_otel_processor.Traces.{Memory}
use asserts_otel_processor.Sampling.Batch.{Sampler}
use asserts_otel_processor.Sampling.Flush.{
  Flushing, flush_items, flush_requests, flush_services, flush,
}
use asserts_otel_processor.Sampling.FlushItems.{
  view, AllCached, IsFlushed, HaveTraces, IsFlushed-none, IsFlushed-trans, flush_items-IsFlushed,
}

abbrev items_of : Option TraceSampler → List Item
items_of none = []
items_of (some sampler) = sampler.error_queue.priority_queue ++ sampler.slow_queue.priority_queue

-- The items of the requests in order, the errors of each first.
unfoldable pub queued : List TraceSampler → StringMap ℕ → List Item
queued samplers [] = []
queued samplers ((request, a) ∷ rest) = items_of (get_elem? samplers a) ++ queued samplers rest

unfoldable pub all_queued : List TraceSampler → StringMap ServiceQueues → List Item
unfolding queued
all_queued samplers [] = []
all_queued samplers ((key, sq) ∷ rest) =
    queued samplers sq.request_states ++ all_queued samplers rest

-- The same services with empty queue sets.
abbrev pub emptied : StringMap ServiceQueues → StringMap ServiceQueues
emptied = map λ (e : String × ServiceQueues). (e.0, new_service_queues)

-- The addresses are those of samplers.
abbrev AreAddresses : List TraceSampler → StringMap ℕ → Type 0
AreAddresses samplers = All λ (e : String × ℕ). e.1 < length samplers

abbrev pub HaveSamplers : List TraceSampler → StringMap ServiceQueues → Type 0
HaveSamplers samplers = All λ (e : String × ServiceQueues). AreAddresses samplers e.1.request_states

All-split {ℓ κ} :
    {A : Type ℓ} (P : A → Type κ) (xs ys : List A) → All P (xs ++ ys) → All P xs × All P ys
All-split P [] ys h = (tt, h)
All-split P (x ∷ xs) ys h = let (a, b) = All-split P xs ys h.1 in ((h.0, a), b)

module _ (mem : Memory) where
  flush_requests-IsFlushed :
      (samplers : List TraceSampler) (requests : StringMap ℕ) (f : Flushing)
      → AllCached f.traces
      → AreAddresses samplers requests
      → HaveTraces (view mem f.traces) (queued samplers requests)
      → Yields (IsFlushed mem f (queued samplers requests)) (flush_requests mem samplers requests f)
  unfolding flush_requests queued flush_items
  flush_requests-IsFlushed samplers [] f cached addressed inside =
      flush_items-IsFlushed mem [] f cached tt
  flush_requests-IsFlushed samplers ((request, a) ∷ rest) f cached addressed inside =
      let (sampler, e) = get_elem?_lt samplers a addressed.0 in
      let later = queued samplers rest in
      let errors = sampler.error_queue.priority_queue in
      let slows = sampler.slow_queue.priority_queue in
      let (here, there) = All-split _ (errors ++ slows) later (rw e at inside) in
      let (in_errors, in_slows) = All-split _ errors slows here in
      rw e (
        Yields-bind (flush_items-IsFlushed mem errors f cached in_errors) λ g first.
          let moved = λ (xs : List Item) (h : HaveTraces (view mem f.traces) xs).
            subst (λ v. HaveTraces v xs) (sym first.same) h in
          Yields-bind (flush_items-IsFlushed mem slows g first.cached (moved slows in_slows))
            λ h second.
              let both = IsFlushed-trans mem f g h errors slows first second in
              Yields-map
                (flush_requests-IsFlushed samplers rest h second.cached addressed.1
                  (subst (λ v. HaveTraces v later) (sym both.same) there))
                λ k third. IsFlushed-trans mem f h k (errors ++ slows) later both third)

  flush_services-IsFlushed :
      (samplers : List TraceSampler) (services : StringMap ServiceQueues) (f : Flushing)
      → AllCached f.traces
      → HaveSamplers samplers services
      → HaveTraces (view mem f.traces) (all_queued samplers services)
      → Yields
          (λ (r : StringMap ServiceQueues × Flushing).
            (r.0 ≡ emptied services) × IsFlushed mem f (all_queued samplers services) r.1)
          (flush_services mem samplers services f)
  unfolding flush_services all_queued clear_request_states new_service_queues flush_items
  flush_services-IsFlushed samplers [] f cached addressed inside =
      yields (refl, IsFlushed-none mem f cached)
  flush_services-IsFlushed samplers ((key, sq) ∷ rest) f cached addressed inside =
      let later = all_queued samplers rest in
      let now = queued samplers sq.request_states in
      let (here, there) = All-split _ now later inside in
      Yields-bind (flush_requests-IsFlushed samplers sq.request_states f cached addressed.0 here)
        λ g first.
          Yields-bind
            (flush_services-IsFlushed samplers rest g first.cached addressed.1
              (subst (λ v. HaveTraces v later) (sym first.same) there))
            λ r second.
              yields (rw second.0 refl, IsFlushed-trans mem f g r.1 now later first second.1)

-- In a state where the queue sets have addresses of samplers, the queued items have addresses of
-- traces and the caches of the traces are right, a tick of the flusher does not panic and leaves every
-- service with an empty queue set. The consumer gets each queued item once, errors before slow
-- traces of each request, with the resources and all spans of its trace; the traces keep their spans,
-- and the counters of sampled traces grow by the numbers of items of each type.
pub flush-IsFlushed :
    (s : Sampler) (f : Flushing)
    → AllCached f.traces
    → HaveSamplers s.core.samplers s.services
    → HaveTraces (view s.core.memory f.traces) (all_queued s.core.samplers s.services)
    → Yields
        (λ (r : Sampler × Flushing).
          (r.0 ≡ record s { services = emptied s.services })
          × IsFlushed s.core.memory f (all_queued s.core.samplers s.services) r.1)
        (flush s f)
unfolding flush
flush-IsFlushed s f cached addressed inside =
    Yields-bind
      (flush_services-IsFlushed s.core.memory s.core.samplers s.services f cached addressed inside)
      λ r h. yields (ap (λ (z : StringMap ServiceQueues). record s { services = z }) h.0, h.1)
