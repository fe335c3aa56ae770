-- ===== src/Transport/Outcome.antt =====
-- src/transport.rs: every way in which a call over HTTP can end.
use infernal_client_rs.Common.{
  ℕ, ◌≡◌, ◌↔◌, ◌⊎◌, inl, inr, refl, Bool, true, false, Option, none, some,
}
use infernal_client_rs.Common.Text.{Bytes, Str, codes}
use mathlib.Core.Path.{subst}
use infernal_client_rs.Call
use infernal_client_rs.Call.{Call, lift}
use infernal_client_rs.Error.{
  Result, ok, err, ◌>>=◌, transport, enrollment_rejected, malformed_enrollment_response,
  EnrollmentRejection,
}
use infernal_client_rs.Transport.{
  Attempt, done, failed, or_transport, HttpResponse, Http, SentResponse, interpret,
}

pub Attempt-cases {ℓ} :
    {A : Type ℓ} (a : Attempt A) → ((m : Str) × (a ≡ failed m)) ⊎ ((x : A) × (a ≡ done x))
Attempt-cases (done x) = inr (x, refl)
Attempt-cases (failed m) = inl (m, refl)

-- An exchange that gave a response, whose body was read
abbrev pub Answers : Attempt HttpResponse → ℕ → Bytes → Type 0
Answers answer status body =
    (response : HttpResponse) × (answer ≡ done response)
    × (response.status ≡ status)
    × (response.bytes ≡ done body)

-- An exchange that gave none: no response, or one whose body could not be read
abbrev pub Breaks : Attempt HttpResponse → Str → Type 0
Breaks answer message =
    (answer ≡ failed message)
    ⊎ ((response : HttpResponse) × (answer ≡ done response) × (response.bytes ≡ failed message))

answer-cases :
    (answer : Attempt HttpResponse)
    → ((m : Str) × Breaks answer m) ⊎ ((status : ℕ) × (body : Bytes) × Answers answer status body)
answer-cases (failed m) = inl (m, inl refl)
answer-cases (done response) = elim (Attempt-cases response.bytes) [
  | inl (m, h) ↦ inl (m, inr (response, refl, h))
  | inr (body, h) ↦ inr (response.status, body, (response, refl, refl, h))
]

-- A call whose one exchange gives a response that is read and handed on
module _ {A : Type 0} (answer : Attempt HttpResponse) (next : ℕ → Bytes → Result A) where
  abbrev pub read_answer : Result A
  read_answer = do
    response ← or_transport answer
    body ← or_transport response.bytes
    next response.status body

  read_answer-Breaks : (m : Str) → Breaks answer m → read_answer ≡ err (transport m)
  read_answer-Breaks m (inl h) = rw h
  read_answer-Breaks m (inr (response, hr, hb)) = rw (hr, hb)

  read_answer-Answers :
      (status : ℕ) (body : Bytes) → Answers answer status body → read_answer ≡ next status body
  read_answer-Answers status body (response, hr, hs, hb) = rw (hr, hb, hs)

-- What a call makes of the answer of its one exchange, in the world that this has led to
module _ {W A : Type 0} (next : ℕ → Bytes → Result A) where
  abbrev pub after_exchange : Attempt HttpResponse → Call W A
  after_exchange answer = Call.◌>>=◌ (lift (or_transport answer)) (λ response.
      Call.◌>>=◌ (lift (or_transport response.bytes)) (λ body. lift (next response.status body)))

  pub after_exchange_lem :
      (answer : Attempt HttpResponse) (w : W)
      → after_exchange answer w ≡ (read_answer answer next, w)
  after_exchange_lem (failed m) w = refl
  after_exchange_lem (done response) w = elim (Attempt-cases response.bytes) [
    | inl (m, h) ↦ rw h refl
    | inr (body, h) ↦ rw h refl
  ]

-- The end of an enrollment call
module _ (http : Http) {A : Type 0} (parse : Bytes → Option A) (answer : Attempt HttpResponse) where
  open http use {is_success, parse_rejection}

  -- A response of a success, whose body is the record
  abbrev pub Succeeds : A → Type 0
  Succeeds a =
      (status : ℕ) × (body : Bytes) × Answers answer status body
      × (is_success status ≡ true)
      × (parse body ≡ some a)

  -- Any other response, whose body is the rejection
  abbrev pub Rejects : EnrollmentRejection → Type 0
  Rejects r =
      (status : ℕ) × (body : Bytes) × Answers answer status body
      × (is_success status ≡ false)
      × (parse_rejection body ≡ some r)

  -- A response whose body is not what goes with its status
  abbrev pub Garbles : Type 0
  Garbles =
      (status : ℕ) × (body : Bytes) × Answers answer status body
      × ((is_success status ≡ true) × (parse body ≡ none)
          ⊎ (is_success status ≡ false) × (parse_rejection body ≡ none))

  pub data CallOutcome : Result A → Type 0 where
    broken : (m : Str) → Breaks answer m → CallOutcome (err (transport m))
    given : (a : A) → Succeeds a → CallOutcome (ok a)
    rejected : (r : EnrollmentRejection) → Rejects r → CallOutcome (err (enrollment_rejected r))
    garbled : Garbles → CallOutcome (err malformed_enrollment_response)

  abbrev decide : ℕ → Bytes → Result A
  decide status body = interpret (is_success status) (parse body) (parse_rejection body)

  interpret_outcome :
      (status : ℕ) (body : Bytes)
      → Answers answer status body
      → (b : Bool) (value : Option A) (rejection : Option EnrollmentRejection)
      → is_success status ≡ b
      → parse body ≡ value
      → parse_rejection body ≡ rejection
      → CallOutcome (interpret b value rejection)
  interpret_outcome status body h true none _ hs hp _ = garbled (status, body, h, inl (hs, hp))
  interpret_outcome status body h true (some a) _ hs hp _ = given a (status, body, h, hs, hp)
  interpret_outcome status body h false _ none hs _ hr = garbled (status, body, h, inr (hs, hr))
  interpret_outcome status body h false _ (some r) hs _ hr = rejected r (status, body, h, hs, hr)

  call_outcome : CallOutcome (read_answer answer decide)
  call_outcome = elim (answer-cases answer) [
    | inl (m, h) ↦ rw (read_answer-Breaks answer decide m h) (broken m h)
    | inr (status, body, h) ↦
        rw (read_answer-Answers answer decide status body h)
          (interpret_outcome status body h _ _ _ refl refl refl)
  ]

  outcome_call : (result : Result A) → CallOutcome result → read_answer answer decide ≡ result
  outcome_call result (broken m h) = read_answer-Breaks answer decide m h
  outcome_call result (given a (status, body, h, hs, hp)) =
      rw (read_answer-Answers answer decide status body h, hs, hp)
  outcome_call result (rejected r (status, body, h, hs, hr)) =
      rw (read_answer-Answers answer decide status body h, hs, hr)
  outcome_call result (garbled (status, body, h, inl (hs, hp))) =
      rw (read_answer-Answers answer decide status body h, hs, hp)
  outcome_call result (garbled (status, body, h, inr (hs, hr))) =
      rw (read_answer-Answers answer decide status body h, hs, hr)

  pub call-CallOutcome_iff :
      (result : Result A) → (read_answer answer decide ≡ result) ↔ CallOutcome result
  call-CallOutcome_iff result = (λ h. subst CallOutcome h call_outcome, outcome_call result)

-- The end of a signed call, which hands every response on: what it gives, and the world it leaves,
-- which is the one it found if nothing was sent, and else the one that the exchange has led to
pub data SendOutcome {W : Type 0} (takes : Bool) (found : W) (answer : Attempt HttpResponse)
    (left : W) : Result SentResponse × W → Type 0 where
  no_method :
      takes ≡ false
      → SendOutcome takes found answer left (err (transport (codes "invalid method")), found)
  not_answered :
      (m : Str)
      → takes ≡ true
      → Breaks answer m
      → SendOutcome takes found answer left (err (transport m), left)
  answered :
      (status : ℕ) (body : Bytes)
      → takes ≡ true
      → Answers answer status body
      → SendOutcome takes found answer left (ok (record { status = status; body = body }), left)

module _ {W : Type 0} (takes : Bool) (found : W) (answer : Attempt HttpResponse) (left : W) where
  abbrev pub send_result : Bool → Result SentResponse × W
  send_result false = (err (transport (codes "invalid method")), found)
  send_result true =
      (read_answer answer λ status body. ok (record { status = status; body = body }), left)

  send_outcome : (b : Bool) → takes ≡ b → SendOutcome takes found answer left (send_result b)
  send_outcome false ht = no_method ht
  send_outcome true ht = elim (answer-cases answer) [
    | inl (m, h) ↦ rw (read_answer-Breaks {A = SentResponse} answer _ m h) (not_answered m ht h)
    | inr (status, body, h) ↦
        rw (read_answer-Answers {A = SentResponse} answer _ status body h)
          (answered status body ht h)
  ]

  outcome_send :
      (ended : Result SentResponse × W)
      → SendOutcome takes found answer left ended
      → send_result takes ≡ ended
  outcome_send ended (no_method ht) = rw ht refl
  outcome_send ended (not_answered m ht h) =
      rw (ht, read_answer-Breaks {A = SentResponse} answer _ m h) refl
  outcome_send ended (answered status body ht h) =
      rw (ht, read_answer-Answers {A = SentResponse} answer _ status body h) refl

  pub send_result-SendOutcome_iff :
      (ended : Result SentResponse × W)
      → (send_result takes ≡ ended) ↔ SendOutcome takes found answer left ended
  send_result-SendOutcome_iff ended = (
    λ h. subst (SendOutcome takes found answer left) h (send_outcome takes refl),
    outcome_send ended,
  )
