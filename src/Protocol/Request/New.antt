-- ===== src/Protocol/Request/New.antt =====
-- The requests that clients make with `Request::new_draft08`, `new_draft14` and
-- `new_draft14_with_server_commitment`.
use roughenough.Prelude.{ℕ, [], ◌∷◌, ◌≡◌, refl, ◌++◌, length, replicate, arith, length-append}
use roughenough.Protocol.Tag
use roughenough.Protocol.Tag.{Tag}
use roughenough.Protocol.Version.{versions_wire_size}
use roughenough.Protocol.Version.Wire.{version_bytes, versions_bytes}
use roughenough.Protocol.Tags.{FixedTag, nonce_size, srv_size, request}
use roughenough.Protocol.Tags.Wire.{type_bytes, length-type_bytes}
use roughenough.Protocol.Request.Draft08.{default_draft08, draft08_wire_size, draft08_padding}
use roughenough.Protocol.Request.Draft14.{default_draft14, draft14_wire_size, draft14_padding}
use roughenough.Protocol.Request.Draft14Srv.{
  default_draft14_srv, draft14_srv_wire_size, draft14_srv_padding,
}
use roughenough.Protocol.Request.{draft08, draft14, draft14_srv}
use roughenough.Protocol.Request.Spec.{
  value_ends, draft08_values, draft14_values, draft14_srv_values,
}
use roughenough.Prelude.{length-replicate}
use roughenough.Protocol.Version.{
  rfc_draft08, rfc_draft14, versions_wire_size, new_versions, is_below,
}
use roughenough.Protocol.Request.Draft08.{new_request_draft08}
use roughenough.Protocol.Request.Draft14.{new_request_draft14}
use roughenough.Protocol.Request.Draft14Srv.{new_request_draft14_srv}
use roughenough.Protocol.Request.RoundTrip.{IsRequest}

-- A draft-08 request made for a nonce of 32 bytes is one of 1012 bytes that the server reads back, with padding of zeros. It holds
-- that nonce and the one version draft 08, and its offsets are where its values end: VER, the nonce.
pub new_draft08-IsRequest :
    (nonce : FixedTag)
    → length nonce ≡ nonce_size
    → IsRequest (draft08 (new_request_draft08 nonce))
      × ((new_request_draft08 nonce).nonce ≡ nonce)
      × ((new_request_draft08 nonce).version ≡ new_versions (rfc_draft08 ∷ []))
      × ((new_request_draft08 nonce).header.offsets
          ≡ value_ends 0 (
              versions_bytes (new_request_draft08 nonce).version
              ∷ nonce
              ∷ (new_request_draft08 nonce).padding
              ∷ []))
unfolding value_ends new_request_draft08 default_draft08 draft08_wire_size draft08_values
    new_versions versions_wire_size versions_bytes version_bytes is_below Tag.lt
new_draft08-IsRequest nonce fits =
    let size : length (nonce ++ replicate draft08_padding 0) ≡ 984 = omega (
      arith,
      fits,
      length-append nonce (replicate draft08_padding 0),
      length-replicate {A = ℕ} 952 0,
    ) in
    (
      (
        record {
          announced = record {
            well_formed = record {
              num_offsets = refl;
              num_tags = refl;
              offsets_ascend =
                  (omega arith, refl, omega arith, (omega arith, refl, omega arith, tt));
              tags_ascend = (refl, (λ e. cc), (refl, (λ e. cc), (refl, (λ e. cc), tt)));
            };
            same = refl;
            first = refl;
            within = (omega (arith, size), (omega (arith, size), tt));
          };
          versions = record { fits = omega arith; ordered = (refl, tt) };
          nonce_fits = fits;
        },
        refl,
        omega (arith, fits, length-replicate {A = ℕ} 952 0),
      ),
      refl,
      refl,
      rw fits refl,
    )

-- A draft-14 request made for a nonce of 32 bytes is one of 1012 bytes that the server reads back, with the type Request and
-- padding of zeros. It holds that nonce and the one version draft 14, and its offsets are where its values end: VER, the nonce, TYPE.
pub new_draft14-IsRequest :
    (nonce : FixedTag)
    → length nonce ≡ nonce_size
    → IsRequest (draft14 (new_request_draft14 nonce))
      × ((new_request_draft14 nonce).nonce ≡ nonce)
      × ((new_request_draft14 nonce).version ≡ new_versions (rfc_draft14 ∷ []))
      × ((new_request_draft14 nonce).header.offsets
          ≡ value_ends 0 (
              versions_bytes (new_request_draft14 nonce).version
              ∷ nonce
              ∷ type_bytes request
              ∷ (new_request_draft14 nonce).padding
              ∷ []))
unfolding value_ends type_bytes new_request_draft14 default_draft14 draft14_wire_size draft14_values
    new_versions versions_wire_size versions_bytes version_bytes is_below Tag.lt
new_draft14-IsRequest nonce fits =
    let size : length ((nonce ++ type_bytes request) ++ replicate draft14_padding 0) ≡ 976 = omega (
      arith,
      fits,
      length-append (nonce ++ type_bytes request) (replicate draft14_padding 0),
      length-append nonce (type_bytes request),
      length-type_bytes request,
      length-replicate {A = ℕ} 940 0,
    ) in
    (
      (
        record {
          announced = record {
            well_formed = record {
              num_offsets = refl;
              num_tags = refl;
              offsets_ascend = (
                omega arith,
                refl,
                omega arith,
                (omega arith, refl, omega arith, (omega arith, refl, omega arith, tt)),
              );
              tags_ascend =
                  (refl, (λ e. cc), (refl, (λ e. cc), (refl, (λ e. cc), (refl, (λ e. cc), tt))));
            };
            same = refl;
            first = refl;
            within = (omega (arith, size), (omega (arith, size), (omega (arith, size), tt)));
          };
          versions = record { fits = omega arith; ordered = (refl, tt) };
          nonce_fits = fits;
          typed = refl;
        },
        refl,
        omega (arith, fits, length-replicate {A = ℕ} 940 0),
      ),
      refl,
      refl,
      rw fits refl,
    )

-- A draft-14 request made for a nonce and a server commitment of 32 bytes each is one of 1012 bytes that the server reads back, with
-- the type Request and padding of zeros. It holds that nonce, that commitment and the one version draft 14, and its
-- offsets are where its values end: VER, SRV, the nonce, TYPE.
pub new_draft14_srv-IsRequest :
    (nonce server : FixedTag)
    → length nonce ≡ nonce_size
    → length server ≡ srv_size
    → IsRequest (draft14_srv (new_request_draft14_srv nonce server))
      × ((new_request_draft14_srv nonce server).nonce ≡ nonce)
      × ((new_request_draft14_srv nonce server).server ≡ server)
      × ((new_request_draft14_srv nonce server).version ≡ new_versions (rfc_draft14 ∷ []))
      × ((new_request_draft14_srv nonce server).header.offsets
          ≡ value_ends 0 (
              versions_bytes (new_request_draft14_srv nonce server).version
              ∷ server
              ∷ nonce
              ∷ type_bytes request
              ∷ (new_request_draft14_srv nonce server).padding
              ∷ []))
unfolding value_ends type_bytes new_request_draft14_srv default_draft14_srv draft14_srv_wire_size
    draft14_srv_values new_versions versions_wire_size versions_bytes version_bytes is_below Tag.lt
new_draft14_srv-IsRequest nonce server fits fits' =
    let size : length ((server ++ (nonce ++ type_bytes request)) ++ replicate draft14_srv_padding 0)
        ≡ 968 =
      omega (
        arith,
        fits,
        fits',
        length-append (server ++ (nonce ++ type_bytes request)) (replicate draft14_srv_padding 0),
        length-append server (nonce ++ type_bytes request),
        length-append nonce (type_bytes request),
        length-type_bytes request,
        length-replicate {A = ℕ} 900 0,
      ) in
    (
      (
        record {
          announced = record {
            well_formed = record {
              num_offsets = refl;
              num_tags = refl;
              offsets_ascend = (
                omega arith,
                refl,
                omega arith,
                (
                  omega arith,
                  refl,
                  omega arith,
                  (omega arith, refl, omega arith, (omega arith, refl, omega arith, tt)),
                ),
              );
              tags_ascend = (
                refl,
                (λ e. cc),
                (refl, (λ e. cc), (refl, (λ e. cc), (refl, (λ e. cc), (refl, (λ e. cc), tt)))),
              );
            };
            same = refl;
            first = refl;
            within = (
              omega (arith, size),
              (omega (arith, size), (omega (arith, size), (omega (arith, size), tt))),
            );
          };
          versions = record { fits = omega arith; ordered = (refl, tt) };
          server_fits = fits';
          nonce_fits = fits;
          typed = refl;
        },
        refl,
        omega (arith, fits, fits', length-replicate {A = ℕ} 900 0),
      ),
      refl,
      refl,
      refl,
      rw (fits, fits') refl,
    )
