-- ===== src/Traces/Tests.antt =====
-- The theorems on traces at a batch of two traces from two services.
use asserts_otel_processor.Base.{
  zero, suc, ◌≡◌, refl, Bool, true, false, String, List, [], ◌∷◌, some, All, map, inr,
}
use asserts_otel_processor.Base.Maps.{StringMap, lookup, insert}
use asserts_otel_processor.Span.{
  Span, SpanKind, Value, server, client, internal, ok, is_root_span, is_entry_span, is_exit_span,
}
use asserts_otel_processor.Traces.{
  Memory, ResourceSpans, TraceSegment, Trace, new_segment, add_span, place_span, get_segment,
  modify, add_spans, add_scopes, add_resources, convert_to_traces, build_trace,
}
use asserts_otel_processor.Traces.Counting.{segment_spans, count_traces, IsPlaced}
use asserts_otel_processor.Traces.Grouping.{IsGrouped, convert_to_traces-IsGrouped}
use asserts_otel_processor.Traces.Partition.{count_accepted, convert_to_traces-IsPlaced}
use asserts_otel_processor.Traces.Building.{
  IsCached, exported, build_trace-exported, convert_to_traces-root_lost,
}

abbrev span : String → Bool → SpanKind → Span
span id orphan kind = record {
  trace_id = id;
  is_orphan = orphan;
  name = "/api";
  kind = kind;
  status = ok;
  start_timestamp = 0;
  end_timestamp = 1;
  attributes = [];
}

abbrev memory : Memory
memory zero = span "t1" true server
memory (suc zero) = span "t1" false client
memory (suc (suc zero)) = span "t2" false server
memory (suc (suc (suc zero))) = span "t1" false internal
memory (suc (suc (suc (suc zero)))) = span "t1" true server
memory a = span "t3" false internal

abbrev text : String → Value
text s = record { str = s; as_string = s }

abbrev cart : StringMap Value
cart = ("service.name", text "cart") ∷ ("service.namespace", text "shop") ∷ []

abbrev batch : List ResourceSpans
batch =
    record { resource = cart; scope_spans = (0 ∷ 1 ∷ []) ∷ (2 ∷ 3 ∷ []) ∷ [] }
    ∷ record { resource = []; scope_spans = (4 ∷ []) ∷ [] }
    ∷ []

abbrev filled : TraceSegment
filled = record (new_segment (record { resource = cart; scope_spans = [] }) "shop" "cart") {
  root_span = some 0;
  exit_spans = 1 ∷ [];
  internal_spans = 3 ∷ [];
  non_internal_spans = some (0 ∷ 1 ∷ []);
}

batch_spans :
    map (λ (tr : Trace). map segment_spans tr.segments) (convert_to_traces memory batch)
    ≡ ((0 ∷ 1 ∷ 3 ∷ []) ∷ []) ∷ ((2 ∷ []) ∷ []) ∷ []
unfolding convert_to_traces add_resources add_scopes add_spans place_span get_segment modify
    new_segment add_span lookup insert segment_spans is_root_span is_entry_span is_exit_span
batch_spans = refl

convert_to_traces-IsGrouped_example : All (IsGrouped memory) (convert_to_traces memory batch)
convert_to_traces-IsGrouped_example = convert_to_traces-IsGrouped memory batch

convert_to_traces-IsPlaced_example :
    IsPlaced memory 3 (count_accepted 3 batch) 0 (count_traces 3 (convert_to_traces memory batch))
convert_to_traces-IsPlaced_example = convert_to_traces-IsPlaced memory batch 3

build_trace-exported_example :
    ((build_trace memory (filled ∷ [])).0 ≡ map (exported memory) (filled ∷ []))
    × All IsCached (build_trace memory (filled ∷ [])).1
unfolding new_segment
build_trace-exported_example = build_trace-exported memory (filled ∷ []) (inr refl, tt)

cart-service : lookup "service.name" cart ≡ some (text "cart")
unfolding lookup
cart-service = refl

roots : (is_root_span (memory 0) ≡ true) × (is_root_span (memory 4) ≡ true)
unfolding is_root_span
roots = (refl, refl)

convert_to_traces-root_lost_example :
    count_traces 0
      (convert_to_traces memory (record { resource = cart; scope_spans = (0 ∷ 4 ∷ []) ∷ [] } ∷ []))
    ≡ 0
convert_to_traces-root_lost_example =
    convert_to_traces-root_lost memory cart (text "cart") 0 4 cart-service roots.0 roots.1 refl refl
