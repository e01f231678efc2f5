-- ===== src/Sampling/Tests.antt =====
-- The theorems on the loop over spans at a segment with a failed and a slow span.
use asserts_otel_processor.Base.{
  arith, ℕ, zero, suc, ◌≡◌, refl, false, List, [], ◌∷◌, some, ◌>>=◌, if◌then◌else◌,
}
use asserts_otel_processor.Base.Int.{pos}
use asserts_otel_processor.Base.Maps.{lookup}
use asserts_otel_processor.Float.{seconds, to_float, bit_length, round_even}
use asserts_otel_processor.Span.{
  Span, SpanKind, StatusCode, server, client, ok, error, span_has_error, compute_latency,
  elapsed_nanos,
}
use asserts_otel_processor.Config.Sample.{sample_config}
use asserts_otel_processor.Thresholds.{get_threshold, get_default_threshold}
use asserts_otel_processor.PriorityQueue.{Item}
use asserts_otel_processor.ServiceQueues.{new_trace_sampler}
use asserts_otel_processor.Traces.{Memory, TraceSegment, new_segment}
use asserts_otel_processor.Sampling.{Core, sample_spans, ignore_error_type, span_is_slow, mark}
use asserts_otel_processor.Sampling.Spans.{
  slow, first_class, push_first, with_samplers, mark_spans, is_some, class_of, sample_spans_once,
}
use asserts_otel_processor.Sampling.Safety.{new_trace_sampler-AreBounded}
use asserts_otel_processor.Sampling.Batch.{Sampler}
use asserts_otel_processor.Sampling.Soundness.{IsSound}
use asserts_otel_processor.Sampling.Marks.{annotate, member, mark_spans-memory}

abbrev span : SpanKind → StatusCode → ℕ → Span
span kind status nanos = record {
  trace_id = "t1";
  is_orphan = false;
  name = "/api";
  kind = kind;
  status = status;
  start_timestamp = 0;
  end_timestamp = nanos;
  attributes = [];
}

-- A quick span, a slow one and one that failed.
abbrev pub memory : Memory
memory zero = span server ok 1000
memory (suc zero) = span client ok 5_000_000_000
memory a = span client error 1000

abbrev pub core : Core
core = record {
  threshold_helper = record { config = sample_config; thresholds = []; entity_keys = [] };
  memory = memory;
  samplers = new_trace_sampler sample_config ∷ [];
}

abbrev pub segment : TraceSegment
segment = new_segment (record { resource = []; scope_spans = [] }) "shop" "cart"

abbrev pub item : Item
item = record { trace = 0; ctx = 0; latency = seconds 1000; sample_type = ""; index = pos 0 }

abbrev spans : List ℕ
spans = 0 ∷ 1 ∷ 2 ∷ []

captured_as_slow : first_class segment spans core ≡ some slow
unfolding first_class span_has_error ignore_error_type span_is_slow mark get_threshold
    get_default_threshold compute_latency elapsed_nanos seconds bit_length round_even lookup
    to_float
captured_as_slow = refl

sample_spans_once_example : sample_spans segment item 0 spans core false ≡ (
    push_first (first_class segment spans core) 0 item core.samplers >>= λ s.
    some
      (with_samplers s (mark_spans segment spans core), is_some (first_class segment spans core)))
sample_spans_once_example = sample_spans_once segment item 0 spans core

mark_spans-memory_example :
    (mark_spans segment spans core).memory 2
    ≡ (if member 2 spans then annotate (class_of segment core 2) (core.memory 2) else core.memory 2)
mark_spans-memory_example = mark_spans-memory segment spans core 2

abbrev pub sampler : Sampler
sampler = record { core = core; services = [] }

pub sampler-IsSound : IsSound 3 sampler
unfolding lookup
sampler-IsSound = record {
  limit = refl;
  bounded = (new_trace_sampler-AreBounded sample_config 3 (omega arith) refl, tt);
  allocated = λ key request sq a p q. absurd (cc);
}

abbrev pub segments : List TraceSegment
segments = record segment { entry_spans = spans } ∷ segment ∷ []
