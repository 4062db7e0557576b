-- ===== src/Kafka/Message/Metadata.antt =====
-- The headers of an envelope, written and read.
use bookstore_golang.Base.{◌≡◌, arith, ℕ_discrete}
use bookstore_golang.Base.Text.{str_eq, Str-discrete}
use bookstore_golang.Kafka.Message.{
  Coding, Envelope, MessageMetadata, build_headers, note_header, scan_headers, extract_metadata,
  first_header, extract_trace_id, extract_correlation_id,
}

pub extract_metadata-build_headers :
    (l : Coding) (e : Envelope)
    → let headers = build_headers l e in
      let meta : MessageMetadata = record {
        trace_id = e.trace_id;
        correlation_id = e.correlation_id;
        causation_id = e.causation_id;
        event_type = e.event_type;
      } in
      (extract_metadata headers ≡ meta)
      × (extract_trace_id headers ≡ e.trace_id)
      × (extract_correlation_id headers ≡ e.correlation_id)
unfolding build_headers extract_metadata scan_headers note_header extract_trace_id
    extract_correlation_id first_header Str-discrete ℕ_discrete
extract_metadata-build_headers l e = (ground arith, ground arith, ground arith)
