-- ===== src/AssertsClient/Answer.antt =====
-- When a call succeeds, and which headers it has.
use asserts_otel_processor.Base.{
  ◌≡◌, refl, ap, subst, ◌∙◌, ◌↔◌, true, String, Option, none, some, Bool-cases, Option-cases, inl,
  inr, arith,
}
use asserts_otel_processor.Config.{Config}
use asserts_otel_processor.AssertsClient.{
  Request, Response, Network, ClientError, request_body, build_request, read_response_body,
  answer_of, send, invoke, decoded, fetch_config,
}

abbrev AreSame : (x y : Option String × Option ClientError) → Type 0
AreSame x y = x ≡ y

module _ {Payload : Type 0} (net : Network Payload) where
  -- The server's answer to a request that is sent: a complete body with the status 200.
  pub record IsAnswered (r : Request) (text : String) : Type 0 where
    pub response : Response
    pub valid : net.is_request r.method r.url ≡ true
    pub arrived : net.do_request r ≡ some response
    pub complete : response.complete ≡ true
    pub status : response.status_code ≡ 200
    pub body : response.body ≡ text

  answer_of-ok :
      (o : Option Response) (text : String)
      → answer_of net o ≡ (some text, none)
      → (response : Response) × (o ≡ some response)
        × (response.complete ≡ true)
        × (response.status_code ≡ 200)
        × (response.body ≡ text)
  unfolding read_response_body
  answer_of-ok none text e = absurd (cc)
  answer_of-ok (some response) text e =
      let same : some response.body ≡ some text =
        ap (λ (r : Option String × Option ClientError). r.0) e in
      let body : response.body ≡ text = cc in
      (response, refl, ground (arith, e), ground (arith, e), body)

  answered-ok :
      (response : Response)
      → response.complete ≡ true
      → response.status_code ≡ 200
      → read_response_body net response ≡ (some response.body, none)
  unfolding read_response_body
  answered-ok response complete status = rw (complete, status) refl

  send-ok : (r : Request) (text : String) → send net r ≡ (some text, none) → IsAnswered r text
  send-ok r text e = elim (Bool-cases (net.is_request r.method r.url)) [
    | inr invalid ↦
        let f : AreSame (none, some ClientError.request) (some text, none) = rw invalid at e in
        absurd (cc)
    | inl valid ↦
        let (response, arrived, complete, status, body) =
          answer_of-ok (net.do_request r) text (rw valid at e) in
        record {
          response = response;
          valid = valid;
          arrived = arrived;
          complete = complete;
          status = status;
          body = body;
        }
  ]

  ok-send : (r : Request) (text : String) → IsAnswered r text → send net r ≡ (some text, none)
  ok-send r text h =
      rw (h.valid, h.arrived)
        (rw (answered-ok h.response h.complete h.status)
          (ap (λ (t : String). (some t, none)) h.body))

  -- A call returns a body and no error exactly if its payload could be encoded, the request is
  -- one, and the server answered it with the status 200 and this body, which was read to its end.
  pub invoke_iff :
      (config : Config) (method api text : String) (payload : Payload)
      → (invoke net config method api payload ≡ (some text, none)) ↔ (
          (body : String) × (request_body net method payload ≡ some body)
          × IsAnswered (build_request net config method api body) text)
  unfolding invoke
  invoke_iff config method api text payload = (
    (λ e. elim (Option-cases (request_body net method payload)) [
      | inl failed ↦
          let f : AreSame (none, some ClientError.encoding) (some text, none) = rw failed at e in
          absurd (cc)
      | inr (body, encoded) ↦
          (body, encoded, send-ok (build_request net config method api body) text (rw encoded at e))
    ]),
    (λ (body, encoded, h). rw encoded (ok-send (build_request net config method api body) text h)),
  )

  decoded-some :
      (r : Option String × Option ClientError) (c : Config)
      → decoded net r ≡ some c
      → (text : String) × (r ≡ (some text, none)) × (net.decode_config text ≡ some c)
  decoded-some (none, none) c e = absurd (cc)
  decoded-some (none, some x) c e = absurd (cc)
  decoded-some (some text, some x) c e = absurd (cc)
  decoded-some (some text, none) c e = (text, refl, e)

  -- fetchConfig returns a configuration exactly if the server answered the request for it with the status
  -- 200 and a complete body that decodes to this configuration.
  pub fetch_config_iff :
      (config latest : Config) (payload : Payload)
      → (fetch_config net config payload ≡ some latest) ↔ (
          (text : String) × IsAnswered
            (build_request net config "GET" "/v1/config/otel-collector" "")
            text
          × (net.decode_config text ≡ some latest))
  unfolding fetch_config request_body
  fetch_config_iff config latest payload =
      let api : String = "/v1/config/otel-collector" in
      (
        (λ e.
            let (text, answered, decodes) =
              decoded-some (invoke net config "GET" api payload) latest e in
            let (body, sent, h) = (invoke_iff config "GET" api text payload).0 answered in
            let same : body ≡ "" = cc in
            (
              text,
              subst (λ b. IsAnswered (build_request net config "GET" api b) text) same h,
              decodes,
            )),
        (λ (text, h, decodes).
            ap (decoded net) ((invoke_iff config "GET" api text payload).1 ("", refl, h))
            ∙ decodes),
      )
