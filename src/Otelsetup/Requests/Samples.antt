-- ===== src/Otelsetup/Requests/Samples.antt =====
-- pkg/otelsetup/http.go and metrics.go: a download that fails late.
use bluebottle.Prelude.{◌≡◌, ◌↔◌, refl, arith, true, is_some, List, [], ◌∷◌, codes}
use bluebottle.Prelude.Int.{pos, negsuc}
use bluebottle.Otelsetup.Requests.{
  Act, writes_header, writes, names_action, names_error, HttpRequest, observe, counted, lasted,
  moved, record_request,
}
use bluebottle.Otelsetup.Requests.Observation.{observe-last}

abbrev download : HttpRequest
download = record { method = codes "GET"; path = codes "/b/k"; content_length = negsuc 0 }

abbrev acts : List Act
acts =
    names_action (codes "GetObject")
    ∷ names_error (codes "SlowDown")
    ∷ writes_header (pos 503)
    ∷ writes 5
    ∷ writes 7
    ∷ names_action []
    ∷ []

measured :
    record_request true true true (observe [] download acts (pos 9)).metric
    ≡ counted (
        (codes "s3.action", codes "GetObject")
        ∷ (codes "outcome", codes "error")
        ∷ (codes "http.response.status_code", codes "503")
        ∷ (codes "s3.error_code", codes "SlowDown")
        ∷ [])
      ∷ lasted (pos 9) (
          (codes "s3.action", codes "GetObject")
          ∷ (codes "outcome", codes "error")
          ∷ (codes "http.response.status_code", codes "503")
          ∷ (codes "s3.error_code", codes "SlowDown")
          ∷ [])
      ∷ moved
          (pos 12)
          ((codes "s3.action", codes "GetObject") ∷ (codes "direction", codes "out") ∷ [])
      ∷ []
unfolding record_request observe
measured = refl

observe-last_example :
    ((observe [] download acts (pos 9)).metric.status_code ≡ pos 503)
    × ((observe [] download acts (pos 9)).metric.resp_bytes ≡ pos 12)
    × ((observe [] download acts (pos 9)).metric.action ≡ codes "GetObject")
    × ((observe [] download acts (pos 9)).metric.error_code ≡ codes "SlowDown")
    × (((observe [] download acts (pos 9)).metric.outcome ≡ codes "error")
        ↔ (is_some (observe [] download acts (pos 9)).span_error ≡ true))
observe-last_example = observe-last [] download acts (pos 9) (omega arith)
