-- ===== src/WebSdk/Client/Retried.antt =====
-- What a call of `authenticatedFetch` that answers has done.
use kavachid.Base.{
  ◌≡◌, ◌≤◌, ◌+◌, suc, refl, sym, ◌∙◌, ap, true, Option, none, some, List, [], ◌∷◌, String, ok, err,
  Result, Result-cases, Bool-cases, inl, inr, present, truthy, arith, length, template, nat_eq,
  or_else, plain,
}
use kavachid.Schema.{Fields, text}
use kavachid.WebSdk.Storage.{StorageProvider, Entries, entry, find_entry, find_entry-put_entry}
use kavachid.WebSdk.Platform.{WebCrypto, Network, Browser, Body, Response, Call}
use kavachid.WebSdk.Dpop.{create_proof}
use kavachid.WebSdk.Client.Frames.{create_proof-Keeps}
use kavachid.WebSdk.Client.{
  Options, Init, get_full_url, is_ok, access_key, set_header, fetch, refresh, signed_fetch,
  refresh_and_retry, authenticated_fetch, post_signed, end_refresh, take_tokens, refresh_key,
}
use kavachid.WebSdk.Client.Tokens.{
  signed_call, post_signed_lem, end_refresh-refused, end_refresh-taken, saved_Holds,
}

-- The last call made before `s'` was answered with `r`: it went to the URL, with the token.
pub record Answered {Store : Type 0} (N : Network) (s' : Browser Store) (r : Response)
    (url token : String) : Type 0 where
  pub call : Call
  pub before : List Call
  pub made : s'.sent ≡ call ∷ before
  pub answered : N.answer before call ≡ ok r
  pub addressed : call.url ≡ url
  pub bearing : find_entry call.headers "authorization" ≡ some (template ("Bearer " ∷ token ∷ []))

-- What the server is relied on for: a good answer to a refresh brings two tokens that are not empty.
abbrev pub GivesTokens : Network → Options → Type 0
GivesTokens N o =
    (before : List Call) (call : Call) (r : Response) (body : Body)
    → call.url ≡ get_full_url o "/auth/refresh"
    → N.answer before call ≡ ok r
    → is_ok r ≡ true
    → r.json ≡ ok body
    → (present body.access_token ≡ true) × (present body.refresh_token ≡ true)

module _ (P : StorageProvider) (W : WebCrypto) (N : Network) (o : Options) where
  bearing_lem :
      (proof token : String) (headers : Entries)
      → find_entry
          (set_header "dpop" proof
            (set_header "authorization" token (set_header "x-tenant-id" o.tenant_id headers)))
          "authorization"
        ≡ some token
  bearing_lem proof token headers =
      find_entry-put_entry (entry "dpop" proof) _ "authorization"
      ∙ find_entry-put_entry (entry "authorization" token) _ "authorization"

  abbrev bearer_call : String → String → String → Init → String → Call
  bearer_call token url method init proof = record {
    url = url;
    method = method;
    headers = set_header "dpop" proof (
        set_header "authorization" (template ("Bearer " ∷ token ∷ []))
          (set_header "x-tenant-id" o.tenant_id init.headers));
    content = init.content;
  }

  signed_fetch_ran :
      (token url method proof : String) (init : Init) (s s1 : Browser P.Store)
      → present token ≡ true
      → create_proof W method url s ≡ (ok proof, s1)
      → let call = bearer_call token url method init proof in
        signed_fetch P W N o (some token) url method init s
        ≡ (N.answer s1.sent call, record s1 { sent = call ∷ s1.sent })
  unfolding signed_fetch fetch
  signed_fetch_ran token url method proof init s s1 there made = ground arith

  -- A signed call that is answered.
  signed_fetch_lem :
      (token url method : String) (init : Init) (s : Browser P.Store) (r : Response)
      → present token ≡ true
      → (signed_fetch P W N o (some token) url method init s).0 ≡ ok r
      → let s' = (signed_fetch P W N o (some token) url method init s).1 in
        Answered N s' r url token × (s'.storage ≡ s.storage) × (length s'.sent ≡ length s.sent + 1)
  signed_fetch_lem token url method init s r there h =
      let k = create_proof-Keeps W method url s in
      let s1 = (create_proof W method url s).1 in
      elim (Result-cases (create_proof W method url s).0) [
        | inr (x, e) ↦ absurd (unfold signed_fetch in ground (arith, e))
        | inl (proof, e) ↦
            let ran = signed_fetch_ran token url method proof init s s1 there (λ i. (e i, s1)) in
            let call = bearer_call token url method init proof in
            rw ran (
              record {
                call = call;
                before = s1.sent;
                made = refl;
                answered = sym (ap (λ (p : Result Response × Browser P.Store). p.0) ran) ∙ h;
                addressed = refl;
                bearing = bearing_lem proof (template ("Bearer " ∷ token ∷ [])) init.headers;
              },
              k.storage,
              rw k.sent (omega arith),
            )
      ]

  -- `post_signed` makes one call, or none.
  post_signed_ran :
      (url : String) (content : Fields) (s : Browser P.Store)
      → let (answer, s') = post_signed P W N o url content s in
        (length s'.sent ≤ length s.sent + 1)
        × (s'.storage ≡ s.storage)
        × ((r : Response)
            → answer ≡ ok r
            → (call : Call) × (s'.sent ≡ call ∷ s.sent)
              × (N.answer s.sent call ≡ ok r)
              × (call.url ≡ url))
  post_signed_ran url content s =
      let k = create_proof-Keeps W "POST" url s in
      let s1 = (create_proof W "POST" url s).1 in
      elim (Result-cases (create_proof W "POST" url s).0) [
        | inr (x, e) ↦
            let ran : post_signed P W N o url content s ≡ (err x, s1) =
              unfold post_signed in ground (arith, e) in
            rw ran (rw k.sent (omega arith), k.storage, λ r h. absurd (ground arith))
        | inl (proof, e) ↦
            let ran = post_signed_lem P W N o url proof content s s1 (λ i. (e i, s1)) in
            rw ran (
              rw k.sent (omega arith),
              k.storage,
              λ r h. (
                signed_call o url content proof,
                ap (◌∷◌ (signed_call o url content proof)) k.sent,
                rw (sym k.sent) h,
                refl,
              ),
            )
      ]

  end_refresh_ran :
      (r : Response) (s : Browser P.Store)
      → let (answer, s') = end_refresh P W N o r s in
        (s'.sent ≡ s.sent)
        × ((body : Body)
            → answer ≡ ok body
            → (is_ok r ≡ true)
              × (r.json ≡ ok body)
              × (s'.storage
                  ≡ P.set_item refresh_key body.refresh_token
                      (P.set_item access_key body.access_token s.storage)))
  end_refresh_ran r s = elim (Bool-cases (is_ok r)) [
    | inr bad ↦
        let (e, ended) = end_refresh-refused P W N o r s bad in
        rw ended (refl, λ body h. absurd (ground arith))
    | inl good ↦ elim (Result-cases r.json) [
      | inr (x, e) ↦
          let ended : end_refresh P W N o r s ≡ (err x, s) =
            unfold end_refresh take_tokens in ground (arith, e, good) in
          rw ended (refl, λ body h. absurd (ground arith))
      | inl (body, e) ↦
          rw (end_refresh-taken P W N o r body s good e)
            (refl, λ body' h. let same_body : body ≡ body' = cc in (good, e ∙ h, rw same_body))
    ]
  ]

  -- A refresh makes at most one call; where it answers, the new access token is the stored one.
  refresh_ran :
      (s : Browser P.Store)
      → GivesTokens N o
      → let (answer, s') = refresh P W N o s in
        (length s'.sent ≤ length s.sent + 1)
        × ((body : Body)
            → answer ≡ ok body
            → (P.get_item access_key s'.storage ≡ some body.access_token)
              × (present body.access_token ≡ true)
              × (length s'.sent ≡ length s.sent + 1))
  refresh_ran s gives =
      let url = get_full_url o "/auth/refresh" in
      let token = P.get_item refresh_key s.storage in
      let content : Fields = ("refreshToken", text token) ∷ ("clientId", text o.client_id) ∷ [] in
      let posted = post_signed P W N o url content s in
      let (few, kept, calls) = post_signed_ran url content s in
      elim (Bool-cases (truthy token)) [
        | inr none_stored ↦
            let ran : refresh P W N o s ≡ (err (plain "No refresh token available"), s) =
              unfold refresh in ground (arith, none_stored) in
            rw ran (omega arith, λ body h. absurd (ground arith))
        | inl stored ↦ elim (Result-cases posted.0) [
          | inr (x, e) ↦
              let ran : refresh P W N o s ≡ (err x, posted.1) =
                unfold refresh in ground (arith, stored, e) in
              rw ran (few, λ body h. absurd (ground arith))
          | inl (r, e) ↦
              let ran : refresh P W N o s ≡ end_refresh P W N o r posted.1 =
                unfold refresh in ground (arith, stored, e) in
              let (same_calls, taken) = end_refresh_ran r posted.1 in
              let (call, made, answered, addressed) = calls r e in
              rw ran (
                rw same_calls few,
                λ body h.
                    let (good, json, now_stored) = taken body h in
                    let (ha, hr) = gives s.sent call r body addressed answered good json in
                    (
                      rw now_stored (saved_Holds P posted.1.storage _ _ ha hr).0,
                      ha,
                      rw same_calls (rw made (omega arith)),
                    ),
              )
        ]
      ]

  signed_fetch_few :
      (token : Option String) (url method : String) (init : Init) (s : Browser P.Store)
      → length (signed_fetch P W N o token url method init s).1.sent ≤ length s.sent + 1
  signed_fetch_few token url method init s =
      let k = create_proof-Keeps W method url s in
      elim (Result-cases (create_proof W method url s).0) [
        | inr (x, e) ↦
            let ran : signed_fetch P W N o token url method init s
                ≡ (err x, (create_proof W method url s).1) =
              unfold signed_fetch in ground (arith, e) in
            rw ran (rw k.sent (omega arith))
        | inl (proof, e) ↦
            let ran : length (signed_fetch P W N o token url method init s).1.sent
                ≡ suc (length (create_proof W method url s).1.sent) =
              unfold signed_fetch fetch in ground (arith, e) in
            rw ran (rw k.sent (omega arith))
      ]

  -- The retry: at most two calls, the last one with the token that is stored by then.
  retry_ran :
      (url method : String) (init : Init) (s : Browser P.Store)
      → GivesTokens N o
      → let (answer, s') = refresh_and_retry P W N o url method init s in
        (length s'.sent ≤ length s.sent + 2)
        × ((r : Response)
            → answer ≡ ok r
            → (token : String) × Answered N s' r url token
              × (P.get_item access_key s'.storage ≡ some token)
              × (length s'.sent ≡ length s.sent + 2))
  retry_ran url method init s gives =
      let (few, fresh) = refresh_ran s gives in
      let s1 = (refresh P W N o s).1 in
      elim (Result-cases (refresh P W N o s).0) [
        | inr (x, e) ↦
            let ran : refresh_and_retry P W N o url method init s ≡ (err x, s1) =
              unfold refresh_and_retry in ground (arith, e) in
            rw ran (omega arith, λ r h. absurd (ground arith))
        | inl (body, e) ↦
            let token = body.access_token in
            let ran : refresh_and_retry P W N o url method init s
                ≡ signed_fetch P W N o (some token) url method init s1 =
              unfold refresh_and_retry in ground (arith, e) in
            let (stored, there, one) = fresh body e in
            rw ran (
              omega (arith, signed_fetch_few (some token) url method init s1),
              λ r h.
                  let (a, kept, two) = signed_fetch_lem token url method init s1 r there h in
                  (token, a, rw kept stored, omega arith),
            )
      ]

  -- An answered call with the token that is stored.
  stored_fetch_lem :
      (stored : Option String) (url method : String) (init : Init) (s : Browser P.Store)
      (r : Response)
      → truthy stored ≡ true
      → (signed_fetch P W N o stored url method init s).0 ≡ ok r
      → let s' = (signed_fetch P W N o stored url method init s).1 in
        (token : String) × (stored ≡ some token)
        × Answered N s' r url token
        × (s'.storage ≡ s.storage)
        × (length s'.sent ≡ length s.sent + 1)
  stored_fetch_lem none url method init s r there h = absurd (ground arith)
  stored_fetch_lem (some token) url method init s r there h =
      let (a, kept, one) = signed_fetch_lem token url method init s r there h in
      (token, refl, a, kept, one)

  -- Where every good answer to a refresh brings two tokens that are not empty: an authenticated call
  -- makes at most three calls of `fetch`, whatever comes back; and where it answers, the answer is
  -- that of its last call, which went to its URL and carried the access token that is stored
  -- afterwards; an answer with status 401 is only given after a refresh and one retry.
  pub authenticated_fetch-Answered :
      (path : String) (init : Init) (s : Browser P.Store)
      → GivesTokens N o
      → let (answer, s') = authenticated_fetch P W N o path init s in
        (length s'.sent ≤ length s.sent + 3)
        × ((r : Response)
            → answer ≡ ok r
            → (token : String) × Answered N s' r (get_full_url o path) token
              × (P.get_item access_key s'.storage ≡ some token)
              × (r.status ≡ 401 → length s'.sent ≡ length s.sent + 3))
  authenticated_fetch-Answered path init s gives =
      let url = get_full_url o path in
      let method = or_else init.method "GET" in
      let stored = P.get_item access_key s.storage in
      let first = signed_fetch P W N o stored url method init s in
      let few = signed_fetch_few stored url method init s in
      let (few_more, retried) = retry_ran url method init first.1 gives in
      elim (Bool-cases (truthy stored)) [
        | inr none_stored ↦
            let ran : authenticated_fetch P W N o path init s
                ≡ (err (plain "No access token available. Please log in first."), s) =
              unfold authenticated_fetch in ground (arith, none_stored) in
            rw ran (omega arith, λ r h. absurd (ground arith))
        | inl there ↦ elim (Result-cases first.0) [
          | inr (x, e) ↦
              let ran : authenticated_fetch P W N o path init s ≡ (err x, first.1) =
                unfold authenticated_fetch in ground (arith, there, e) in
              rw ran (omega arith, λ r h. absurd (ground arith))
          | inl (r, e) ↦
              let (token, same_token, a, kept, one) =
                stored_fetch_lem stored url method init s r there e in
              elim (Bool-cases (nat_eq r.status 401)) [
                | inr fine ↦
                    let ran : authenticated_fetch P W N o path init s ≡ (ok r, first.1) =
                      unfold authenticated_fetch in ground (arith, there, e, fine) in
                    rw ran (
                      omega arith,
                      λ r' h.
                          let same_answer : r ≡ r' = cc in
                          rw (sym same_answer)
                            (token, a, rw kept same_token, λ refused. absurd (ground arith)),
                    )
                | inl expired ↦
                    let retry = refresh_and_retry P W N o url method init first.1 in
                    elim (Result-cases retry.0) [
                      | inr (x, e') ↦
                          let ran : authenticated_fetch P W N o path init s
                              ≡ (err (plain "Session expired. Please log in again."), retry.1) =
                            unfold authenticated_fetch in ground (arith, there, e, expired, e') in
                          rw ran (omega arith, λ r' h. absurd (ground arith))
                      | inl (r', e') ↦
                          let ran : authenticated_fetch P W N o path init s ≡ (ok r', retry.1) =
                            unfold authenticated_fetch in ground (arith, there, e, expired, e') in
                          rw ran (
                            omega arith,
                            λ r'' h.
                                let (token', a', now_stored, two) = retried r'' (e' ∙ h) in
                                (token', a', now_stored, λ refused. omega arith),
                          )
                    ]
              ]
        ]
      ]
