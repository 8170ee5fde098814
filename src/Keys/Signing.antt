-- ===== src/Keys/Signing.antt =====
-- What the online keys of onlinekey.rs in roughenough-keys sign.
use roughenough.Prelude.{
  ℕ, ◌+◌, ◌-◌, ◌^◌, ◌<◌, ◌≡◌, refl, ap, ◌∙◌, List, [], ◌++◌, length, take, drop, replicate, arith,
  le→not_ltb, length-append, length-take, length-drop, length-replicate, take-append, drop_all,
  append-nil, take_all,
}
use roughenough.Protocol.Error.{bind_ok, Result, ok, ◌>>=◌}
use roughenough.Protocol.Cursor.{Action, new}
use roughenough.Protocol.Cursor.Writes.{Writes}
use roughenough.Protocol.Cursor.{written}
use roughenough.Protocol.Version.{
  ProtocolVersion, rfc_draft14, srep_prefix, new_versions, versions_wire_size, is_below,
}
use roughenough.Protocol.Tags.{FixedTag, root_size}
use roughenough.Protocol.Tags.Srep.{
  SignedResponse, default_srep, set_radi, set_vers, set_ver, set_root, set_midp, set_fourth,
  srep_wire_size, srep_to_wire,
}
use roughenough.Protocol.Tags.Srep.Made.{IsMade, srep_bytes, srep_bytes-Writes, length-made_bytes}
use roughenough.Keys.{
  Ed25519, new_buf, write_between, OnlineKeyDraft14, template14, new_draft14, make_srep14,
}

-- What is written between two places of a buffer, up to its end.
write_between-Writes :
    {m : Action (Unit {0})} {xs : List ℕ} (start end : ℕ) (buf : List ℕ)
    → Writes m xs
    → start + length xs ≡ end
    → length buf ≡ end
    → write_between start end m buf ≡ ok (take start buf ++ xs)
unfolding write_between new written
write_between-Writes {m} {xs} start end buf p size full =
    let region : List ℕ = take (end - start) (drop start buf) in
    let wide : length region ≡ length xs =
      omega (arith, length-take (end - start) (drop start buf), length-drop start buf) in
    let run : m (new region) ≡ ok (tt, written xs (new region)) =
      p.at (new region) (unfold new in record { room = omega (arith, wide) }) in
    let rest : drop (0 + length xs) region ≡ [] =
      drop_all (0 + length xs) region (omega (arith, wide)) in
    rw (le→not_ltb (length buf) end (omega (arith, full)))
      (rw run (rw (rest, drop_all end buf (omega (arith, full)), append-nil xs, append-nil xs)))

length-prefix14 : length (srep_prefix rfc_draft14) ≡ 32
unfolding srep_prefix
length-prefix14 = refl

module _ (ed : Ed25519) where
  -- An online key as it is made, with its buffer as it is left by any use.
  pub record IsOnline (version : ProtocolVersion) (key : OnlineKeyDraft14 ed) : Type 0 where
    pub templated : key.template_srep ≡ template14 ed version
    pub prefixed : take 32 key.signing_buf ≡ srep_prefix rfc_draft14
    pub sized : length key.signing_buf ≡ 124

  -- The signed response for a root at a time.
  unfoldable pub srep_at : ProtocolVersion → FixedTag → ℕ → SignedResponse
  unfolding set_root set_midp template14
  srep_at version root now = set_midp now (set_root root (template14 ed version))

  pub srep_at-IsMade :
      (version : ProtocolVersion) (root : FixedTag) (now : ℕ)
      → length root ≡ root_size
      → now < 2 ^ 64
      → IsMade (srep_at version root now)
  unfolding srep_at template14 set_root set_midp set_ver set_vers set_radi new_versions default_srep
      set_fourth versions_wire_size is_below
  srep_at-IsMade version root now rooted small = record {
    headed = refl;
    radius_small = omega arith;
    midpoint_small = small;
    some_versions = omega arith;
    listed = record { fits = omega arith; ordered = (refl, tt) };
    rooted = rooted;
  }

  pub size-srep_at :
      (version : ProtocolVersion) (root : FixedTag) (now : ℕ)
      → srep_wire_size (srep_at version root now) ≡ 92
  unfolding srep_at template14 set_root set_midp set_ver set_vers set_radi new_versions default_srep
      versions_wire_size srep_wire_size
  size-srep_at version root now = refl

  pub new_draft14-IsOnline :
      (version : ProtocolVersion) (signer : ed.KeyPair)
      → IsOnline version (new_draft14 ed version signer)
  unfolding new_draft14 new_buf template14 srep_wire_size versions_wire_size set_ver set_vers
      set_radi new_versions default_srep
  new_draft14-IsOnline version signer = record {
    templated = refl;
    prefixed = take-append 32 (srep_prefix rfc_draft14) (replicate 92 0) length-prefix14;
    sized = omega (
      arith,
      length-prefix14,
      length-append (srep_prefix rfc_draft14) (replicate {A = ℕ} 92 0),
      length-replicate {A = ℕ} 92 0,
    );
  }

  -- What `make_srep` does with the signed response that it has filled in.
  sign_srep :
      OnlineKeyDraft14 ed
      → SignedResponse
      → Result (SignedResponse × FixedTag × OnlineKeyDraft14 ed)
  sign_srep key srep = do
    let prefix_len = length (srep_prefix rfc_draft14)
    let total_len = prefix_len + srep_wire_size srep
    buf ← write_between prefix_len total_len (srep_to_wire srep) key.signing_buf
    ok (srep, ed.sign key.signer (take total_len buf), record key { signing_buf = buf })

  signed_buf : SignedResponse → List ℕ
  signed_buf srep = srep_prefix rfc_draft14 ++ srep_bytes srep

  length-signed_buf :
      (srep : SignedResponse)
      → IsMade srep
      → srep_wire_size srep ≡ 92
      → length (signed_buf srep) ≡ 124
  unfolding signed_buf
  length-signed_buf srep made size = omega (
    arith,
    size,
    length-prefix14,
    length-made_bytes srep made,
    length-append (srep_prefix rfc_draft14) (srep_bytes srep),
  )

  sign_srep-run :
      (version : ProtocolVersion) (key : OnlineKeyDraft14 ed) (srep : SignedResponse)
      → IsOnline version key
      → IsMade srep
      → srep_wire_size srep ≡ 92
      → sign_srep key srep
        ≡ ok (
          srep,
          ed.sign key.signer (signed_buf srep),
          record key { signing_buf = signed_buf srep },
        )
  unfolding sign_srep signed_buf
  sign_srep-run version key srep o made size =
      let at : length (srep_prefix rfc_draft14) ≡ 32 = length-prefix14 in
      rw (at, size)
        (bind_ok (write_between 32 124 (srep_to_wire srep) key.signing_buf) _ (signed_buf srep) (
            write_between-Writes 32 124 key.signing_buf (srep_bytes-Writes srep made)
              (omega (arith, size, length-made_bytes srep made)) o.sized
            ∙ ap (λ front. ok (front ++ srep_bytes srep)) o.prefixed)
          ∙ ap
              (λ xs. ok (srep, ed.sign key.signer xs, record key { signing_buf = signed_buf srep }))
              (take_all 124 (signed_buf srep) (omega (arith, length-signed_buf srep made size))))

  -- An online key signs, behind the prefix, the bytes of the signed response that it gives, and stays ready to sign again.
  pub make_srep14-signs :
      (version : ProtocolVersion) (key : OnlineKeyDraft14 ed) (root : FixedTag) (now : ℕ)
      → IsOnline version key
      → length root ≡ root_size
      → now < 2 ^ 64
      → (next : OnlineKeyDraft14 ed) × (make_srep14 ed root now key
          ≡ ok (
            srep_at version root now,
            ed.sign key.signer (srep_prefix rfc_draft14 ++ srep_bytes (srep_at version root now)),
            next,
          ))
        × IsOnline version next
        × (next.signer ≡ key.signer)
        × (next.cert ≡ key.cert)
  unfolding make_srep14 sign_srep srep_at signed_buf
  make_srep14-signs version key root now o rooted small =
      let srep : SignedResponse = srep_at version root now in
      let made : IsMade srep = srep_at-IsMade version root now rooted small in
      let size : srep_wire_size srep ≡ 92 = size-srep_at version root now in
      (
        record key { signing_buf = signed_buf srep },
        ap (λ template. sign_srep key (set_midp now (set_root root template))) o.templated
            ∙ sign_srep-run version key srep o made size,
        record {
          templated = o.templated;
          prefixed = take-append 32 (srep_prefix rfc_draft14) (srep_bytes srep) length-prefix14;
          sized = length-signed_buf srep made size;
        },
        refl,
        refl,
      )
