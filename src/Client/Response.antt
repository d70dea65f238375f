-- ===== src/Client/Response.antt =====
-- The outcome of a request to the server: `request` of services/api/base.ts.
use everyup.Common.{
  ℕ, String, Bool, false, Option, some, none, ◌≡◌, ◌≢◌, ◌↔◌, if◌then◌else◌, nat_eq, ◌==◌, ◌+++◌,
  decimal, arith,
}
use everyup.Client.Errors.{ApiError, Thrown, get_error_message, message_of}

pub record ErrorBody : Type 0 where
  pub code : String
  pub message : String

pub record ApiResponse {ℓ} (A : Type ℓ) : Type ℓ where
  pub success : Bool
  pub payload : Option A
  pub error : Option ErrorBody

-- What the server answered: the status, and the body if it is JSON.
pub record Response {ℓ} (A : Type ℓ) : Type ℓ where
  pub status : ℕ
  pub json : Option (ApiResponse A)

pub data Outcome {ℓ} (A : Type ℓ) : Type ℓ where
  -- `undefined`, and the data, which may be null.
  empty : Outcome A
  resolved : Option A → Outcome A
  rejected : ApiError → Outcome A

-- The part of the page that `request` changes: the stored user, and where the browser goes.
pub record Page : Type 0 where
  pub stored_user : Option String
  pub href : String

abbrev signed_out : Page → Page
signed_out p = record { stored_user = none; href = "/login" }

-- `text || fallback`.
abbrev pub or_text : Option String → String → String
or_text none d = d
or_text (some t) d = if t == "" then d else t

abbrev error_message : Option ErrorBody → Option String
error_message none = none
error_message (some e) = some e.message

abbrev error_code : Option ErrorBody → Option String
error_code none = none
error_code (some e) = some e.code

failure : ℕ → Option ErrorBody → ApiError
failure status e = record {
  message = or_text (error_message e) "API Error";
  code = or_text (error_code e) "UNKNOWN_ERROR";
  status = some status;
}

module _ {ℓ} {A : Type ℓ} where
  outcome : Response A → Outcome A
  unfolding failure
  outcome r = if nat_eq r.status 204 then empty else elim r.json [
    | none ↦ rejected (record {
      message = "HTTP Error: " +++ decimal r.status;
      code = "UNKNOWN_ERROR";
      status = some r.status;
    })
    | some j ↦ if j.success then resolved j.payload else rejected (failure r.status j.error)
  ]

  -- `request`, once the response is there, with the page before and after it.
  unfoldable pub request : Response A → Page → Page × Outcome A
  unfolding outcome
  request r p =
      if nat_eq r.status 401
      then (
        signed_out p,
        rejected (record { message = "Unauthorized"; code = "UNAUTHORIZED"; status = some 401 }),
      )
      else (p, outcome r)

  -- The data of a body in which the server reports success.
  abbrev pub reported : Response A → Option (Option A)
  reported r = elim r.json [ none ↦ none | some j ↦ if j.success then some j.payload else none ]

  -- A request resolves to data exactly when the body reports success with that data, unless the
  -- status is 401, which never resolves, or 204, whose body is not read. Any other status is not
  -- looked at.
  pub request_resolved_iff :
      (r : Response A) (p : Page) (d : Option A)
      → ((request r p).1 ≡ resolved d)
        ↔ ((r.status ≢ 401) × (r.status ≢ 204) × (reported r ≡ some d))
  unfolding request
  request_resolved_iff r p d = (λ h. ground arith, λ h. ground arith)

  -- A request that the server refuses in JSON, with a non-empty code that has a message and a status
  -- other than 401 and 204, is rejected with that code and shown by that message, whatever text the
  -- server wrote.
  pub request_shows :
      (r : Response A) (p : Page) (j : ApiResponse A) (e : ErrorBody) (m : String)
      → r.status ≢ 401
      → r.status ≢ 204
      → r.json ≡ some j
      → j.success ≡ false
      → j.error ≡ some e
      → (e.code == "") ≡ false
      → message_of e.code ≡ some m
      → ((request r p).1
          ≡ rejected (record {
            message = or_text (some e.message) "API Error";
            code = e.code;
            status = some r.status;
          }))
        × (get_error_message (
              Thrown.api_error (record {
                message = or_text (some e.message) "API Error";
                code = e.code;
                status = some r.status;
              }))
            ≡ m)
  unfolding request get_error_message
  request_shows r p j e m h k f s g c l = (ground arith, ground arith)
