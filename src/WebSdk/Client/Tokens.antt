-- ===== src/WebSdk/Client/Tokens.antt =====
-- What a refresh and a logout do to the stored tokens.
use kavachid.Base.{
  ◌≡◌, refl, ◌∙◌, true, false, Option, none, some, [], ◌∷◌, String, ok, err, Error, Result-cases,
  inl, inr, present, arith, plain, or_else,
}
use kavachid.Schema.{Fields, text}
use kavachid.WebSdk.Storage.{StorageProvider}
use kavachid.WebSdk.Platform.{WebCrypto, Network, Browser, Body, Response, Call}
use kavachid.WebSdk.Dpop.{create_proof}
use kavachid.WebSdk.Client.{
  Options, get_full_url, is_ok, access_key, refresh_key, proof_headers, fetch, save_tokens,
  remove_tokens, post_signed, take_tokens, end_refresh, refresh, logout, logout_all,
}

-- the call of `post_signed`, with its proof
abbrev pub signed_call : Options → String → Fields → String → Call
signed_call o url content proof = record {
  url = url;
  method = "POST";
  headers = proof_headers o proof;
  content = some content;
}

abbrev pub refresh_body : Options → String → Fields
refresh_body o token = ("refreshToken", text (some token)) ∷ ("clientId", text o.client_id) ∷ []

-- the two tokens that a store reads
abbrev pub Holds : (P : StorageProvider) → P.Store → Option String → Option String → Type 0
Holds P st access refresh =
    (P.get_item access_key st ≡ access) × (P.get_item refresh_key st ≡ refresh)

module _ (P : StorageProvider) where
  removed_Holds :
      (st : P.Store) → Holds P (P.remove_item refresh_key (P.remove_item access_key st)) none none
  removed_Holds st = (
    P.get_item-remove_item refresh_key access_key _
        ∙ P.get_item-remove_item access_key access_key st,
    P.get_item-remove_item refresh_key refresh_key _,
  )

  pub saved_Holds :
      (st : P.Store) (a r : String)
      → present a ≡ true
      → present r ≡ true
      → Holds P (P.set_item refresh_key r (P.set_item access_key a st)) (some a) (some r)
  saved_Holds st a r ha hr = (
    P.get_item-set_item refresh_key access_key r _ hr
        ∙ P.get_item-set_item access_key access_key a st ha,
    P.get_item-set_item refresh_key refresh_key r _ hr,
  )

module _ (P : StorageProvider) (W : WebCrypto) (N : Network) (o : Options) where
  pub post_signed_lem :
      (url proof : String) (content : Fields) (s s1 : Browser P.Store)
      → create_proof W "POST" url s ≡ (ok proof, s1)
      → let call = signed_call o url content proof in
        post_signed P W N o url content s
        ≡ (N.answer s1.sent call, record s1 { sent = call ∷ s1.sent })
  unfolding post_signed fetch
  post_signed_lem url proof content s s1 made = ground arith

  pub end_refresh-refused :
      (r : Response) (s : Browser P.Store)
      → is_ok r ≡ false
      → (e : Error) × (end_refresh P W N o r s ≡ (
        err e,
        record s { storage = P.remove_item refresh_key (P.remove_item access_key s.storage) },
      ))
  unfolding end_refresh remove_tokens
  end_refresh-refused r s bad = elim (Result-cases r.json) [
    | inl (body, e) ↦ (plain (or_else body.error_message "Session refresh failed"), ground arith)
    | inr (x, e) ↦ (x, ground arith)
  ]

  pub end_refresh-taken :
      (r : Response) (body : Body) (s : Browser P.Store)
      → is_ok r ≡ true
      → r.json ≡ ok body
      → end_refresh P W N o r s ≡ (
        ok body,
        record s {
          storage =
              P.set_item refresh_key body.refresh_token
                (P.set_item access_key body.access_token s.storage);
        },
      )
  unfolding end_refresh take_tokens save_tokens
  end_refresh-taken r body s good e = ground arith

  -- A refresh up to the answer of the server.
  refresh_answered :
      (token proof : String) (s s1 : Browser P.Store) (r : Response)
      → present token ≡ true
      → P.get_item refresh_key s.storage ≡ some token
      → create_proof W "POST" (get_full_url o "/auth/refresh") s ≡ (ok proof, s1)
      → let call = signed_call o (get_full_url o "/auth/refresh") (refresh_body o token) proof in
        N.answer s1.sent call ≡ ok r
        → refresh P W N o s ≡ end_refresh P W N o r (record s1 { sent = call ∷ s1.sent })
  unfolding refresh
  refresh_answered token proof s s1 r there stored made answered = ground (
    arith,
    post_signed_lem (get_full_url o "/auth/refresh") proof (refresh_body o token) s s1 made,
  )

  -- A refresh that reaches the server, with the stored token and a proof: where the server refuses,
  -- it throws, and neither token is stored any more; where the answer is good and brings two tokens
  -- that are not empty, it answers them, and they are the ones that are stored.
  pub refresh_decided :
      (token proof : String) (s s1 : Browser P.Store) (r : Response)
      → present token ≡ true
      → P.get_item refresh_key s.storage ≡ some token
      → create_proof W "POST" (get_full_url o "/auth/refresh") s ≡ (ok proof, s1)
      → N.answer s1.sent
          (signed_call o (get_full_url o "/auth/refresh") (refresh_body o token) proof)
        ≡ ok r
      → let (answer, s') = refresh P W N o s in
        (is_ok r ≡ false → ((e : Error) × (answer ≡ err e)) × Holds P s'.storage none none)
        × ((body : Body)
            → is_ok r ≡ true
            → r.json ≡ ok body
            → present body.access_token ≡ true
            → present body.refresh_token ≡ true
            → (answer ≡ ok body)
              × Holds P s'.storage (some body.access_token) (some body.refresh_token))
  refresh_decided token proof s s1 r there stored made answered =
      let ran = refresh_answered token proof s s1 r there stored made answered in
      (
        λ bad.
            let (e, ended) = end_refresh-refused r _ bad in
            rw (ran ∙ ended) ((e, refl), removed_Holds P s1.storage),
        λ body good json ha hr.
            rw (ran ∙ end_refresh-taken r body _ good json)
              (refl, saved_Holds P s1.storage body.access_token body.refresh_token ha hr),
      )

  logout_ran :
      (token proof : String) (s s1 : Browser P.Store)
      → present token ≡ true
      → P.get_item refresh_key s.storage ≡ some token
      → create_proof W "POST" (get_full_url o "/auth/logout") s ≡ (ok proof, s1)
      → ((logout P W N o s).0 ≡ ok tt)
        × ((logout P W N o s).1.storage
            ≡ P.remove_item refresh_key (P.remove_item access_key s1.storage))
  unfolding logout fetch remove_tokens
  logout_ran token proof s s1 there stored made = (ground arith, ground arith)

  logout_all_ran :
      (s : Browser P.Store)
      → ((logout_all P W N o s).0 ≡ ok tt)
        × ((st : P.Store) × ((logout_all P W N o s).1.storage
              ≡ P.remove_item refresh_key (P.remove_item access_key st)))
  unfolding logout_all remove_tokens
  logout_all_ran s = (refl, (_, refl))

  -- No token is stored after a logout from all devices, whatever the server, the network and Web
  -- Crypto do; nor after a logout with a stored refresh token and a proof, whatever the server and
  -- the network do. Neither of these throws.
  pub logout_forgets :
      (s : Browser P.Store)
      → (((logout_all P W N o s).0 ≡ ok tt) × Holds P (logout_all P W N o s).1.storage none none)
        × ((token proof : String) (s1 : Browser P.Store)
            → present token ≡ true
            → P.get_item refresh_key s.storage ≡ some token
            → create_proof W "POST" (get_full_url o "/auth/logout") s ≡ (ok proof, s1)
            → ((logout P W N o s).0 ≡ ok tt) × Holds P (logout P W N o s).1.storage none none)
  logout_forgets s =
      let (fine, (st, gone)) = logout_all_ran s in
      (
        (fine, rw gone (removed_Holds P st)),
        λ token proof s1 there stored made.
            let (fine', gone') = logout_ran token proof s s1 there stored made in
            (fine', rw gone' (removed_Holds P s1.storage)),
      )
