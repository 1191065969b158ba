-- ===== src/Webhook/Validate/Answers.antt =====
-- What `validate_handler` of crates/servarr-operator/src/webhook.rs answers.
use servarr_operator.Prelude.{
  String, ◌≡◌, ◌≢◌, ◌↔◌, subst, ap, ◌∙◌, refl, true, Option, none, some, List, [], ◌∷◌, arith,
  Result, ok, err, ◌>>=◌,
}
use servarr_operator.Crds.Spec.{ServarrAppSpec}
use servarr_operator.Crds.Types.Workload.{Value, get}
use servarr_operator.Webhook.Rejection.{Rejection}
use servarr_operator.Webhook.Validate.{
  Calls, AdmissionRequest, AdmissionError, missing_spec, invalid_spec, rejected, all_errors,
  conclude, spec_result, read_spec, parse_spec, validate_spec, AdmissionReview, AdmissionResponse,
  answered, respond, validate_handler,
}

err_injective : {E A : Type 0} {a b : E} → ◌≡◌ {A = Result E A} (err a) (err b) → a ≡ b
err_injective h = cc

-- The message is right for the errors of the request.
pub data Justified (calls : Calls) (request : AdmissionRequest)
    : Option AdmissionError → Type 0 where
  no_message : validate_spec calls request ≡ ok tt → Justified calls request none
  no_spec : get "spec" request.object ≡ none → Justified calls request (some missing_spec)
  unreadable :
      (value : Value) (e : String)
      → get "spec" request.object ≡ some value
      → calls.from_value value ≡ err e
      → Justified calls request (some (invalid_spec e))
  refused :
      (spec : ServarrAppSpec)
      → parse_spec calls request.object ≡ ok spec
      → all_errors calls request spec ≢ []
      → Justified calls request (some (rejected (all_errors calls request spec)))

spec_result-err :
    (r : Result String ServarrAppSpec) (e : AdmissionError)
    → spec_result r ≡ err e
    → (reason : String) × (r ≡ err reason) × (invalid_spec reason ≡ e)
spec_result-err (ok spec) e h = ground arith
spec_result-err (err reason) e h = (reason, refl, err_injective h)

-- By the `spec` of the object.
parse_spec-Justified :
    (calls : Calls) (request : AdmissionRequest) (e : AdmissionError) (found : Option Value)
    → get "spec" request.object ≡ found
    → read_spec calls found ≡ err e
    → Justified calls request (some e)
parse_spec-Justified calls request e none there h =
    subst (λ message. Justified calls request (some message)) (err_injective h) (no_spec there)
parse_spec-Justified calls request e (some value) there h =
    let (reason, refused_by, same) = spec_result-err (calls.from_value value) e h in
    subst (λ message. Justified calls request (some message)) same
      (unreadable value reason there refused_by)

conclude-err :
    (errors : List Rejection) (e : AdmissionError)
    → conclude errors ≡ err e
    → (errors ≢ []) × (rejected errors ≡ e)
conclude-err [] e h = ground arith
conclude-err (r ∷ errors) e h = (λ k. ground arith, err_injective h)

-- By the spec that was read.
validate_spec-Justified :
    (calls : Calls) (request : AdmissionRequest) (e : AdmissionError)
    (parsed : Result AdmissionError ServarrAppSpec)
    → parse_spec calls request.object ≡ parsed
    → (parsed >>= λ spec. conclude (all_errors calls request spec)) ≡ err e
    → Justified calls request (some e)
validate_spec-Justified calls request e (ok spec) there h =
    let (some_error, same) = conclude-err (all_errors calls request spec) e h in
    subst (λ message. Justified calls request (some message)) same (refused spec there some_error)
validate_spec-Justified calls request e (err failure) there h =
    parse_spec-Justified calls request e (get "spec" request.object) refl
      (there ∙ ap err (err_injective h))

by_result :
    (calls : Calls) (review : AdmissionReview) (request : AdmissionRequest)
    (result : Result AdmissionError (Unit {0}))
    → validate_spec calls request ≡ result
    → (r : AdmissionResponse) × (respond review request result ≡ answered r)
      × (r.uid ≡ request.uid)
      × ((r.allowed ≡ true) ↔ (result ≡ ok tt))
      × Justified calls request r.message
unfolding validate_spec
by_result calls review request (ok done) there =
    (_, refl, refl, (λ h. refl, λ h. refl), no_message there)
by_result calls review request (err e) there = (
  _,
  refl,
  refl,
  (λ h. ground arith, λ h. ground arith),
  validate_spec-Justified calls request e (parse_spec calls request.object) refl there,
)

-- A review is answered with the identifier of its request, it is allowed exactly if the validation
-- of the request succeeds, and the message of a denial is justified: the object has no `spec`, or
-- its `spec` cannot be read, or the message lists all errors of the rules and there is one.
pub validate_handler_lem :
    (calls : Calls) (review : AdmissionReview) (request : AdmissionRequest)
    → review.request ≡ some request
    → (r : AdmissionResponse) × (validate_handler calls review ≡ answered r)
      × (r.uid ≡ request.uid)
      × ((r.allowed ≡ true) ↔ (validate_spec calls request ≡ ok tt))
      × Justified calls request r.message
unfolding validate_handler
validate_handler_lem calls review request given =
    rw given (by_result calls review request (validate_spec calls request) refl)
