-- ===== src/Schemas/RoundTrip.antt =====
-- The stored text of a request can be read back.
use meshcore_rpc_services.Prelude.{◌≡◌, refl, Option, none, some, String}
use meshcore_rpc_services.Prelude.Int.{ℤ}
use meshcore_rpc_services.Prelude.Dict.{Dict, lookup, contains}
use meshcore_rpc_services.Schemas.{Request, dump_request}
use meshcore_rpc_services.Schemas.Validate.{IsValid, model_validate, known_keys}
use meshcore_rpc_services.Value.{Json, int, entries-of_entries}

module _ (lax_int : Json → Option ℤ) (reads : (z : ℤ) → lax_int (int z) ≡ some z) where
  -- The same, by whether there is a TTL.
  dumped :
      (v : ℤ) (id type from_ : String) (ttl : Option ℤ) (args : Dict Json)
      → let r : Request = record {
        v = v;
        id = id;
        type = type;
        from_ = from_;
        ttl = ttl;
        args = args;
      } in
        IsValid r → model_validate lax_int (dump_request r) ≡ some r
  unfolding model_validate dump_request lookup contains known_keys
  dumped v id type from_ none args h =
      rw (reads v, h.id_bounds, h.type_bounds, h.from_bounds, entries-of_entries args) refl
  dumped v id type from_ (some z) args h =
      rw
        (
          reads v,
          reads z,
          h.id_bounds,
          h.type_bounds,
          h.from_bounds,
          h.ttl_bound,
          entries-of_entries args,
        )
        refl

  -- A valid request is what its stored text validates to, where an int is read as itself.
  pub model_validate-dump_request :
      (r : Request) → IsValid r → model_validate lax_int (dump_request r) ≡ some r
  model_validate-dump_request r h = dumped r.v r.id r.type r.from_ r.ttl r.args h
