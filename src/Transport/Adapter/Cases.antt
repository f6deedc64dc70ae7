-- ===== src/Transport/Adapter/Cases.antt =====
-- What comes out of the adapter.
use meshcore_rpc_services.Prelude.{
  ◌≡◌, ◌≢◌, inl, inr, refl, true, not, ◌||◌, Option, none, some, String, or_else, arith,
  Option-cases, Bool-cases, subst, ◌∙◌,
}
use meshcore_rpc_services.Prelude.Dict.{Dict, lookup}
use meshcore_rpc_services.Errors
use meshcore_rpc_services.Schemas.{Request, Response, make_error, ErrorBody}
use meshcore_rpc_services.Schemas.Validate.{model_validate, IsValid, model_validate-IsValid}
use meshcore_rpc_services.Transport.Adapter.{
  Codec, bad_request_for, bad_request_response, try_build_bad_request_response, validated,
  inbound_to_request,
}
use meshcore_rpc_services.Value.{Json, null, obj, entries, truthy, truthy?}

-- Python's `str(x)` is empty for the empty text only.
abbrev pub ShowsTruthy : Codec → Type 0
ShowsTruthy c = (x : Json) → truthy x ≡ true → c.py_str x ≢ ""

-- A `bad_request` error that can be published: it names its request and its addressee.
pub record IsAddressable (r : Response) : Type 0 where
  pub to_nonempty : r.to ≢ ""
  pub id_nonempty : r.id ≢ ""
  pub is_error : r.status ≡ "error"
  pub coded : (e : ErrorBody) × (r.error ≡ some e) × (e.code ≡ Errors.bad_request)

module _ (c : Codec) (shows : ShowsTruthy c) where
  shown : (o : Option Json) → truthy? o ≡ true → c.py_str (or_else o null) ≢ ""
  shown none h = cc
  shown (some x) h = shows x h

  bad_request-IsAddressable :
      (d : Dict Json) (r : Response) → bad_request_for c d ≡ some r → IsAddressable r
  unfolding make_error
  bad_request-IsAddressable d r h =
      elim (Bool-cases (not (truthy? (lookup "id" d)) || not (truthy? (lookup "from" d)))) [
        | inl missing ↦ absurd (ground (arith, h, missing))
        | inr named ↦
            let e : bad_request_response c d ≡ r = ground (arith, h, named) in
            subst IsAddressable e (record {
              to_nonempty = shown (lookup "from" d) (ground (arith, named));
              id_nonempty = shown (lookup "id" d) (ground (arith, named));
              is_error = refl;
              coded = (
                record { code = Errors.bad_request; message = "Request payload failed validation" },
                refl,
                refl,
              );
            })
      ]

  try_build-IsAddressable :
      (value : Json) (r : Response)
      → try_build_bad_request_response c value ≡ some r
      → IsAddressable r
  unfolding try_build_bad_request_response
  try_build-IsAddressable (obj fs) r h = bad_request-IsAddressable (entries fs) r h
  try_build-IsAddressable _ r h = cc

  validated-IsAddressable :
      (topic : String) (value : Json) (o : Option Request) (r : Response)
      → (validated c topic value o).error_response ≡ some r
      → ((validated c topic value o).request ≡ none) × IsAddressable r
  unfolding validated
  validated-IsAddressable topic value none r h = (refl, try_build-IsAddressable value r h)
  validated-IsAddressable topic value (some request) r h = cc

  -- Where `str` of a truthy value is never empty, an error response of the adapter comes with no
  -- request, is a `bad_request`, and names a request
  -- and an addressee, so that it can be published.
  pub inbound_to_request-IsAddressable :
      (topic raw : String) (r : Response)
      → (inbound_to_request c topic raw).error_response ≡ some r
      → ((inbound_to_request c topic raw).request ≡ none) × IsAddressable r
  unfolding inbound_to_request
  inbound_to_request-IsAddressable topic raw r h = elim (Option-cases (c.loads raw)) [
    | inl undecoded ↦ cc (undecoded, h)
    | inr (value, e) ↦
        rw e (validated-IsAddressable topic value (model_validate c.lax_int value) r (rw e at h))
  ]

module _ (c : Codec) where
  validated-IsValid :
      (topic : String) (value : Json) (r : Request) (o : Option Request)
      → model_validate c.lax_int value ≡ o
      → (validated c topic value o).request ≡ some r
      → IsValid r × ((validated c topic value o).error_response ≡ none)
  unfolding validated
  validated-IsValid topic value r none e h = cc
  validated-IsValid topic value r (some request) e h =
      (model_validate-IsValid c.lax_int value r (e ∙ h), refl)

  -- A request that the adapter lets through satisfies the constraints of the schema, and no error
  -- response comes with it.
  pub inbound_to_request-IsValid :
      (topic raw : String) (r : Request)
      → (inbound_to_request c topic raw).request ≡ some r
      → IsValid r × ((inbound_to_request c topic raw).error_response ≡ none)
  unfolding inbound_to_request
  inbound_to_request-IsValid topic raw r h = elim (Option-cases (c.loads raw)) [
    | inl undecoded ↦ cc (undecoded, h)
    | inr (value, e) ↦
        rw e (validated-IsValid topic value r (model_validate c.lax_int value) refl (rw e at h))
  ]
