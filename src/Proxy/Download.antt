-- ===== src/Proxy/Download.antt =====
-- client-request/rust/src/lib.rs: `get` and `get_into`, over the retries.
pub mod Loops
pub mod History
pub mod Sequence
pub mod Answered
use dragonfly_sdk.Base.{
  ℕ, Option, none, some, List, [], ◌∷◌, ◌++◌, if◌then◌else◌, length, take, Text, text,
}
use dragonfly_sdk.Errors.{Error, Result, ok, err, internal, request_timeout}
use mathlib.Core.Option
use dragonfly_sdk.Errors.Convert.{Response, BodyError}
use dragonfly_sdk.Requests.Get.{GetRequest, GetResponse}
use dragonfly_sdk.Retry.{run_with_endpoints}
use dragonfly_sdk.Selector.{SeedPeers}
use dragonfly_sdk.Proxy.{Env, Session, Proxy, RetryPolicy}
use dragonfly_sdk.Proxy.Lookup.{lookup_endpoints}
use dragonfly_sdk.Proxy.Send.{send_to, HttpResult, is_success}

module _ (E : Env) where
  -- The timer of the retries.
  abbrev pub rest : ℕ → Session E → Session E
  rest d s = record s { world = E.wait d s.world }

  abbrev stream_error : Option BodyError → Option Error
  stream_error none = none
  stream_error (some e) = some (internal e.message)

  abbrev pub streamed : Response E.http → GetResponse E.http
  streamed r = record {
    success = is_success E r.status;
    header = r.headers;
    status_code = some r.status;
    body = some (record { chunks = r.chunks; ending = stream_error r.ending });
  }

  abbrev to_streamed : HttpResult E → Result (GetResponse E.http)
  to_streamed (ok r) = ok (streamed r)
  to_streamed (err e) = err e

  abbrev pub Sender : Type 0
  Sender = Session E → Text → Session E × HttpResult E

  abbrev pub Got : Type 0
  Got = Result (GetResponse E.http) × Session E

  unfoldable pub stream_from : RetryPolicy E.retrier → List Text → Sender → Session E → Got
  stream_from retry endpoints sender s =
      let (s', result) =
        run_with_endpoints E.retrier (Session E) (Response E.http) retry rest endpoints s sender in
      (to_streamed result, s')

  abbrev pub get_from : Proxy E → Session E → GetRequest E.http → Result (List Text) → Got
  get_from p s r (err e) = (err e, s)
  get_from p s r (ok endpoints) = stream_from p.retry endpoints (send_to E r) s

  -- `none` stands for a call that does not return.
  unfoldable pub get : Proxy E → SeedPeers E.ring → Session E → GetRequest E.http → Option Got
  unfolding stream_from
  get p peers s r = Option.map (get_from p s r) (lookup_endpoints E p peers s r)

  -- The reading of a body into the buffer, whose length at the start of the attempt is given.
  abbrev pub filled : Response E.http → GetResponse E.http
  filled r = record {
    success = is_success E r.status;
    header = r.headers;
    status_code = some r.status;
    body = none;
  }

  abbrev read_error : BodyError → Error
  read_error e =
      if e.is_timeout
      then request_timeout e.message
      else internal (text "failed to read response body: " ++ e.message)

  -- The buffer grows with the chunks; the capacity that the code reserves beforehand is not a value.
  unfoldable pub read_chunks :
      Response E.http → ℕ → List Text → Text → Text × Result (GetResponse E.http)
  read_chunks r len (chunk ∷ chunks) body = read_chunks r len chunks (body ++ chunk)
  read_chunks r len [] body = elim r.ending [
    | none ↦ (body, ok (filled r))
    | some e ↦ (take len body, err (read_error e))
  ]

  abbrev read_response : Text → HttpResult E → Text × Result (GetResponse E.http)
  read_response body (err e) = (body, err e)
  read_response body (ok r) = read_chunks r (length body) r.chunks body

  -- One attempt of `get_into`: a session and the buffer go in and come out.
  unfoldable pub fill_from :
      Sender → Session E × Text → Text → (Session E × Text) × Result (GetResponse E.http)
  unfolding read_chunks
  fill_from sender (s, body) endpoint =
      let (s', sent) = sender s endpoint in
      let (body', result) = read_response body sent in ((s', body'), result)

  abbrev pub GotInto : Type 0
  GotInto = Result (GetResponse E.http) × (Session E × Text)

  abbrev pub rest_into : ℕ → Session E × Text → Session E × Text
  rest_into d (s, body) = (rest d s, body)

  unfoldable pub fill_buffer :
      RetryPolicy E.retrier → List Text → Sender → Session E → Text → GotInto
  unfolding fill_from
  fill_buffer retry endpoints sender s buf =
      let (end, result) =
        run_with_endpoints E.retrier (Session E × Text) (GetResponse E.http) retry rest_into
          endpoints (s, buf) (fill_from sender) in
      (result, end)

  abbrev pub get_into_from :
      Proxy E → Session E → GetRequest E.http → Text → Result (List Text) → GotInto
  get_into_from p s r buf (err e) = (err e, (s, buf))
  get_into_from p s r buf (ok endpoints) = fill_buffer p.retry endpoints (send_to E r) s buf

  unfoldable pub get_into :
      Proxy E → SeedPeers E.ring → Session E → GetRequest E.http → Text → Option GotInto
  unfolding fill_buffer
  get_into p peers s r buf = Option.map (get_into_from p s r buf) (lookup_endpoints E p peers s r)
