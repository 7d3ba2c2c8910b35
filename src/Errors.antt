-- ===== src/Errors.antt =====
-- client-request/rust/src/errors.rs, the type of errors and the results that carry it.
-- A message is the text that the code formats; what another library prints is an argument.
pub mod Retryable
pub mod Convert
use dragonfly_sdk.Base.{
  ℕ, ◌+◌, ◌-◌, ◌/◌, String, ◌≡◌, refl, ◌⊎◌, inl, inr, Bool, true, false, ◌&&◌, ◌||◌, not, Option,
  none, some, List, ◌++◌, ltb, leb, ◌==◌, if◌then◌else◌, Text, text, TextMap,
}

pub record BackendError : Type 0 where
  pub message : Option Text
  pub header : TextMap Text
  pub status_code : Option ℕ

pub record ProxyError : Type 0 where
  pub message : Option Text
  pub header : TextMap Text
  pub status_code : Option ℕ

pub record DfdaemonError : Type 0 where
  pub message : Option Text
  pub header : TextMap Text
  pub status_code : Option ℕ

-- The codes of a gRPC status, as the protocol lists them.
pub data Code : Type 0 where
  ok_code cancelled unknown invalid_argument_code deadline_exceeded not_found already_exists : Code
  permission_denied resource_exhausted failed_precondition aborted out_of_range : Code
  unimplemented internal_code unavailable data_loss unauthenticated : Code

-- What the code reads of a gRPC status.
pub record Status : Type 0 where
  pub code : Code
  pub message : Text
  pub details : List ℕ

pub data Error : Type 0 where
  request_timeout : Text → Error
  invalid_argument : Text → Error
  internal : Text → Error
  host_not_found : Text → Error
  backend_error : BackendError → Error
  proxy_error : ProxyError → Error
  dfdaemon_error : DfdaemonError → Error
  net_addr_parse_error : Text → Error
  tonic_status : Status → Error
  tonic_transport_error : Text → Error

-- What a call returns: a value, or an error.
pub data Result {ℓ} (T : Type ℓ) : Type ℓ where
  err : Error → Result T
  ok : T → Result T

-- `if b { return Err(e) }`.
abbrev pub fail_if : Bool → Error → Result (Unit {0})
fail_if b e = if b then err e else ok tt

abbrev pub ok_or {ℓ} : {A : Type ℓ} → Option A → Error → Result A
ok_or none e = err e
ok_or (some a) e = ok a

-- The operator `?`, as `do` blocks use it.
infixl 5 ◌>>=◌
abbrev pub ◌>>=◌ {ℓ κ} : {T : Type ℓ} {U : Type κ} → Result T → (T → Result U) → Result U
err failure >>= next = err failure
ok value >>= next = next value

infixl 5 ◌>>◌
abbrev pub ◌>>◌ {κ} : {U : Type κ} → Result (Unit {0}) → Result U → Result U
check >> next = check >>= λ _. next

abbrev pub map_err {ℓ} : {A : Type ℓ} → (Error → Error) → Result A → Result A
map_err f (ok a) = ok a
map_err f (err e) = err (f e)

-- What went before a success succeeded too.
pub >>=-ok {ℓ κ} :
    {T : Type ℓ} {U : Type κ} {u : U} (call : Result T) (next : T → Result U)
    → (call >>= next) ≡ ok u
    → (t : T) × (call ≡ ok t) × (next t ≡ ok u)
>>=-ok (err failure) next h = cc
>>=-ok (ok value) next h = (value, refl, h)

pub map_err-ok {ℓ} :
    {A : Type ℓ} (f : Error → Error) (r : Result A) {a : A} → map_err f r ≡ ok a → r ≡ ok a
map_err-ok f (ok b) h = h
map_err-ok f (err e) h = cc

pub ok-injective {ℓ} : {A : Type ℓ} {a b : A} → ok a ≡ ok b → a ≡ b
ok-injective e = cc

pub Result-cases {ℓ} :
    {A : Type ℓ} (r : Result A) → ((a : A) × (r ≡ ok a)) ⊎ ((e : Error) × (r ≡ err e))
Result-cases (ok a) = inl (a, refl)
Result-cases (err e) = inr (e, refl)

-- How the libraries print what an error carries.
pub record Printers : Type 0 where
  pub debug_message : Option Text → Text
  pub debug_header : TextMap Text → Text
  pub debug_status_code : Option ℕ → Text
  pub show_status : Status → Text

abbrev failure_text : Printers → String → Option Text → TextMap Text → Option ℕ → Text
failure_text p kind message header status_code =
    text kind
    ++ text ", message: "
    ++ p.debug_message message
    ++ text ", header: "
    ++ p.debug_header header
    ++ text ", status_code: "
    ++ p.debug_status_code status_code

-- The display of an error.
unfoldable pub display : Printers → Error → Text
display p (request_timeout m) = text "request timeout: " ++ m
display p (invalid_argument m) = text "invalid argument: " ++ m
display p (internal m) = text "request internal error: " ++ m
display p (host_not_found m) = text "host " ++ m ++ text " not found"
display p (backend_error e) = failure_text p "backend server error" e.message e.header e.status_code
display p (proxy_error e) = failure_text p "proxy server error" e.message e.header e.status_code
display p (dfdaemon_error e) = failure_text p "dfdaemon error" e.message e.header e.status_code
display p (net_addr_parse_error m) = m
display p (tonic_status s) = p.show_status s
display p (tonic_transport_error m) = m

-- The three failures of a seed peer carry an optional HTTP status.
abbrev is_server_error : ℕ → Bool
is_server_error status = leb 500 status && ltb status 600

unfoldable pub transient_status : Option ℕ → Bool
transient_status none = true
transient_status (some status) = is_server_error status || status == 408 || status == 429

unfoldable pub transient_code : Code → Bool
transient_code internal_code = true
transient_code unavailable = true
transient_code unknown = true
transient_code aborted = true
transient_code _ = false

unfoldable pub is_retryable : Error → Bool
unfolding transient_status transient_code
is_retryable (request_timeout _) = true
is_retryable (internal _) = true
is_retryable (proxy_error e) = transient_status e.status_code
is_retryable (backend_error e) = transient_status e.status_code
is_retryable (dfdaemon_error e) = transient_status e.status_code
is_retryable (tonic_status s) = transient_code s.code
is_retryable (invalid_argument _) = false
is_retryable (host_not_found _) = false
is_retryable (net_addr_parse_error _) = false
is_retryable (tonic_transport_error _) = false
