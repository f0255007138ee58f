-- ===== src/Crypto/Dpop.antt =====
-- What a DPoP proof that `verifyDpop` takes has been checked for.
use mathlib.Core.Path.{subst}
use kavachid.Base.{
  ℕ, ◌≡◌, ◌≤◌, true, Option, none, some, String, eq_iff, same, arith, ok, Option-cases,
  Result-cases, inl, inr,
}
use kavachid.Crypto.{
  Claims, Header, Externals, DpopProof, clean_url, seconds, distance, or_zero, check_proof,
  verify_dpop,
}

module _ (X : Externals) where
  -- A proof fits a request: it is of the DPoP type and signed by the key in its header, whose
  -- thumbprint it yields; it names the method and, up to query and fragment, the URL; and it was
  -- issued at most two minutes before or after the time of the request, in whole seconds.
  pub record Fits (proof method url : String) (now : ℕ) (d : DpopProof) : Type 0 where
    pub header : Header
    pub payload : Claims
    pub key : String
    pub htu : String
    pub decoded : X.decode_header proof ≡ ok header
    pub type_fits : header.typ ≡ some "dpop+jwt"
    pub jwk_there : header.jwk ≡ some d.public_key_jwk
    pub imported : X.import_jwk d.public_key_jwk header.alg ≡ ok key
    pub signed : X.jwt_verify proof key none now ≡ ok payload
    pub method_fits : payload.htm ≡ some method
    pub has_url : payload.htu ≡ some htu
    pub url_fits : clean_url url ≡ clean_url htu
    pub recent : distance (seconds now) (or_zero payload.iat) ≤ 120
    pub bound : X.thumbprint d.public_key_jwk ≡ ok d.jkt

  known_text : (s : String) (o : Option String) → same s o ≡ true → o ≡ some s
  known_text s none h = cc
  known_text s (some t) h = let e = (eq_iff s t).0 h in rw e

  check_proof_sound :
      (c : Claims) (method url : String) (now : ℕ)
      → check_proof X c method url now ≡ ok tt
      → (htu : String) × (c.htu ≡ some htu)
        × (c.htm ≡ some method)
        × (clean_url url ≡ clean_url htu)
        × (distance (seconds now) (or_zero c.iat) ≤ 120)
  unfolding check_proof
  check_proof_sound c method url now h = elim (Option-cases c.htu) [
    | inl missing ↦ absurd (ground arith)
    | inr (htu, e) ↦ (
      htu,
      e,
      known_text method c.htm (ground arith),
      (eq_iff _ _).0 (ground arith),
      ground arith,
    )
  ]

  -- A proof that is taken fits the request that it was checked against.
  pub verify_dpop_sound :
      (proof method url : String) (now : ℕ) (d : DpopProof)
      → verify_dpop X proof method url now ≡ ok d
      → Fits proof method url now d
  unfolding verify_dpop
  verify_dpop_sound proof method url now d h = elim (Result-cases (X.decode_header proof)) [
    | inr (x, e) ↦ absurd (ground (arith, e))
    | inl (header, e) ↦ elim (Option-cases header.jwk) [
      | inl missing ↦ absurd (ground arith)
      | inr (jwk, ej) ↦ elim (Result-cases (X.import_jwk jwk header.alg)) [
        | inr (x, ei) ↦ absurd (ground arith)
        | inl (key, ei) ↦ elim (Result-cases (X.jwt_verify proof key none now)) [
          | inr (x, ev) ↦ absurd (ground arith)
          | inl (c, ev) ↦ elim (Result-cases (X.thumbprint jwk)) [
            | inr (x, et) ↦ absurd (ground arith)
            | inl (jkt, et) ↦ elim (Result-cases (check_proof X c method url now)) [
              | inr (x, eo) ↦ absurd (ground arith)
              | inl (u, eo) ↦
                  let (htu, e_htu, e_htm, e_url, e_at) = check_proof_sound c method url now eo in
                  let typ_ok : header.typ ≡ some "dpop+jwt" =
                    known_text "dpop+jwt" header.typ (ground arith) in
                  let d_is : record { jkt = jkt; public_key_jwk = jwk } ≡ d = ground arith in
                  subst (Fits proof method url now) d_is (record {
                    header = header;
                    payload = c;
                    key = key;
                    htu = htu;
                    decoded = e;
                    type_fits = typ_ok;
                    jwk_there = ej;
                    imported = ei;
                    signed = ev;
                    method_fits = e_htm;
                    has_url = e_htu;
                    url_fits = e_url;
                    recent = e_at;
                    bound = et;
                  })
            ]
          ]
        ]
      ]
    ]
  ]
