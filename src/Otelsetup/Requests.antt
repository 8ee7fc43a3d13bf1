-- ===== src/Otelsetup/Requests.antt =====
-- pkg/otelsetup/http.go and metrics.go: what is observed of a handled HTTP request.
use bluebottle.Prelude.{
  ℕ, ◌+◌, ◌%◌, ◌^◌, Bool, true, false, not, Option, none, some, List, [], ◌∷◌, ◌++◌, Bytes, codes,
  eqb, any, is_empty, leb, ltb, if◌then◌else◌,
}
use bluebottle.Prelude.Int.{ℤ, pos, negsuc, ltb_ℤ}
use bluebottle.Strings.Decimal.{format_int}
use bluebottle.Safecast.{int64}
pub mod Observation
mod Samples

unfoldable pub outcome_for_status : ℤ → Bytes
outcome_for_status status =
    if not (ltb_ℤ status (pos 500))
    then codes "error"
    else if not (ltb_ℤ status (pos 400))
    then codes "client_error"
    else codes "success"

-- The response as the recorder sees it, with the 64 bits of its count.
pub record StatusRecorder : Type 0 where
  pub status : ℤ
  pub written : ℕ

abbrev pub write_header : ℤ → StatusRecorder → StatusRecorder
write_header code w = record w { status = code }

-- `Write` and `ReadFrom`, by how many bytes the wrapped writer or the copy reports.
abbrev pub count : ℕ → StatusRecorder → StatusRecorder
count n w = record w { written = (w.written + n) % 2 ^ 64 }

-- The holder of a request that came through the middleware.
pub record RequestAction : Type 0 where
  pub name : Bytes
  pub error_code : Bytes

abbrev pub set_request_action : Bytes → RequestAction → RequestAction
set_request_action action h = if not (is_empty action) then record h { name = action } else h

abbrev pub set_request_error_code : Bytes → RequestAction → RequestAction
set_request_error_code code h = if not (is_empty code) then record h { error_code = code } else h

-- What a handler does that the middleware sees.
pub data Act : Type 0 where
  writes_header : ℤ → Act
  writes : ℕ → Act
  names_action : Bytes → Act
  names_error : Bytes → Act

abbrev pub act : Act → StatusRecorder × RequestAction → StatusRecorder × RequestAction
act (writes_header code) (w, h) = (write_header code w, h)
act (writes n) (w, h) = (count n w, h)
act (names_action action) (w, h) = (w, set_request_action action h)
act (names_error code) (w, h) = (w, set_request_error_code code h)

abbrev pub serve : List Act → StatusRecorder × RequestAction → StatusRecorder × RequestAction
serve [] s = s
serve (a ∷ acts) s = serve acts (act a s)

pub record RequestMetric : Type 0 where
  pub action : Bytes
  pub outcome : Bytes
  pub status_code : ℤ
  pub error_code : Bytes
  pub req_bytes : ℤ
  pub resp_bytes : ℤ
  pub elapsed : ℤ

pub record HttpRequest : Type 0 where
  pub method : Bytes
  pub path : Bytes
  pub content_length : ℤ

-- A span that is opened under a name, or the one of the context; the status it is given, and the
-- description of its error where it is marked as one.
pub data Span : Type 0 where
  opened : Bytes → Span
  inherited : Span

pub record Observed : Type 0 where
  pub span : Span
  pub span_status : ℤ
  pub span_error : Option Bytes
  pub metric : RequestMetric

abbrev pub path_name : HttpRequest → Bytes
path_name r = r.method ++ (codes " " ++ r.path)

-- The body of `HTTPMiddleware` for a handler that acts so, and the time that it took.
unfoldable pub observe : List Bytes → HttpRequest → List Act → ℤ → Observed
unfolding outcome_for_status int64 format_int
observe untraced r acts elapsed =
    let skip = any (eqb r.path) untraced in
    let name = if skip then path_name r else r.method in
    let (rec, action) =
      serve acts
        (record { status = pos 200; written = 0 }, record { name = name; error_code = [] }) in
    record {
      span = if skip then inherited else opened (path_name r);
      span_status = rec.status;
      span_error =
          if not (ltb_ℤ rec.status (pos 500))
          then some (codes "HTTP " ++ format_int rec.status)
          else none;
      metric = record {
        action = action.name;
        outcome = outcome_for_status rec.status;
        status_code = rec.status;
        error_code = action.error_code;
        req_bytes = if ltb_ℤ r.content_length (pos 0) then pos 0 else r.content_length;
        resp_bytes = int64 rec.written;
        elapsed = elapsed;
      };
    }

abbrev pub Attrs : Type 0
Attrs = List (Bytes × Bytes)

pub data Measurement : Type 0 where
  counted : Attrs → Measurement
  lasted : ℤ → Attrs → Measurement
  moved : ℤ → Attrs → Measurement

abbrev pub only_if : {A : Type 0} → Bool → A → List A
only_if b x = if b then x ∷ [] else []

unfoldable pub request_attrs : RequestMetric → Attrs
unfolding format_int
request_attrs m =
    (codes "s3.action", m.action)
    ∷ (only_if (not (is_empty m.outcome)) (codes "outcome", m.outcome)
        ++ (only_if (ltb_ℤ (pos 0) m.status_code)
              (codes "http.response.status_code", format_int m.status_code)
            ++ only_if (not (is_empty m.error_code)) (codes "s3.error_code", m.error_code)))

-- Bytes of one direction, where they are known.
abbrev pub transferred : Bytes → ℤ → RequestMetric → List Measurement
transferred direction n m =
    only_if (ltb_ℤ (pos 0) n)
      (moved n ((codes "s3.action", m.action) ∷ (codes "direction", direction) ∷ []))

-- `RecordRequest`, with the instruments that could be made.
unfoldable pub record_request : Bool → Bool → Bool → RequestMetric → List Measurement
unfolding request_attrs
record_request has_counter has_duration has_bytes m =
    only_if has_counter (counted (request_attrs m))
    ++ (only_if has_duration (lasted m.elapsed (request_attrs m))
        ++ (if has_bytes
            then transferred (codes "in") m.req_bytes m ++ transferred (codes "out") m.resp_bytes m
            else []))
