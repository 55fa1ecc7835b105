-- ===== src/Aas/Guarded.antt =====
-- Where the requests of a synchronisation go, and with which credential.
use lab_gateway.Prelude.{
  Text, codes, nonempty, text_eq, text_eq_iff, ◌≡◌, refl, sym, subst, All-imp, ◌⊎◌, inl, inr,
  Option, none, some, Bool, true, false, not, ◌&&◌, ◌||◌, List, [], ◌∷◌, ◌++◌, ◌==◌, All,
  All-append, if◌then◌else◌,
}
use lab_gateway.Prelude.Value.{Value}
use lab_gateway.Aas.{
  Host, Heartbeat, validate_lab_id, aas_id_for_lab, submodel_id_nameplate, submodel_id_technical,
}
use lab_gateway.Aas.Endpoint.{
  Parts, Config, Headers, bundled_url, endpoint, is_allowed_endpoint, is_token, headers_for,
  aas_request_headers,
}
use lab_gateway.Aas.Sync.{
  Document, submodel, shell, Call, Answer, answered, unreachable, timed_out, invalid_request,
  crashed, Outcome, stored, failed, rejected, raised, Error, Report, is_path_id, is_allowed_url,
  collection, put_call, post_call, settle_put, put_or_post, Sync, after_document, nameplate,
  technical, lab_shell, put_nameplate, put_technical, put_shell, sync_documents, sync_lab,
  sync_valid, sync_lab_to_basyx,
}

-- no credential for the bundled server, and otherwise an endpoint that the setting allows
abbrev pub IsGuarded : Config → Headers → Type 0
IsGuarded c headers =
    ((headers ≡ []) × (endpoint c ≡ bundled_url))
    ⊎ ((p : Parts) × (c.urlsplit (endpoint c) ≡ some p)
        × (is_allowed_endpoint c.allowed_hosts p ≡ true)
        × (is_token c.service_token ≡ true))

-- the paths of the two collections and of their entries, each an id of the allowed characters
abbrev pub IsPath : Text → Type 0
IsPath path =
    (path ≡ codes "/submodels")
    ⊎ ((path ≡ codes "/shells")
        ⊎ ((id : Text) × (is_path_id id ≡ true)
            × ((path ≡ codes "/submodels" ++ (b'/' ∷ id))
                ⊎ (path ≡ codes "/shells" ++ (b'/' ∷ id)))))

abbrev OnSome : {A : Type 0} → (A → Type 0) → Option A → Type 0
OnSome P none = Unit
OnSome P (some a) = P a

OnSome-any : {A : Type 0} (P : A → Type 0) (o : Option A) → ((a : A) → P a) → OnSome P o
OnSome-any P none h = tt
OnSome-any P (some a) h = h a

if-OnSome :
    {A : Type 0} (P : A → Type 0) (b : Bool) (o o' : Option A)
    → ((b ≡ true) → OnSome P o)
    → ((b ≡ false) → OnSome P o')
    → OnSome P (if b then o else o')
if-OnSome P true o o' h k = h refl
if-OnSome P false o o' h k = k refl

both : (a b : Bool) → (a && b) ≡ true → (a ≡ true) × (b ≡ true)
both true b h = (refl, h)
both false b h = cc

module _ (c : Config) where
  headers_for-IsGuarded :
      (o : Option Parts) → c.urlsplit (endpoint c) ≡ o → OnSome (IsGuarded c) (headers_for c o)
  unfolding headers_for
  headers_for-IsGuarded none e = tt
  headers_for-IsGuarded (some p) e =
      if-OnSome (IsGuarded c) (is_allowed_endpoint c.allowed_hosts p && is_token c.service_token) _
        _
        (λ q.
          let (a, t) = both (is_allowed_endpoint c.allowed_hosts p) (is_token c.service_token) q in
          OnSome-any (IsGuarded c) _ (λ headers. inr (p, e, a, t)))
        (λ _. tt)

  aas_request_headers-IsGuarded : OnSome (IsGuarded c) (aas_request_headers c)
  unfolding aas_request_headers
  aas_request_headers-IsGuarded =
      if-OnSome (IsGuarded c) (text_eq (endpoint c) bundled_url) _ _
        (λ q. inl (refl, (text_eq_iff (endpoint c) bundled_url).0 q))
        (λ _. headers_for-IsGuarded (c.urlsplit (endpoint c)) refl)

module _ (c : Config) (server : Call → Answer) (encode : Text → Text) where
  -- a request to a path of the API below the endpoint
  abbrev pub IsBelow : Call → Type 0
  IsBelow k = (path : Text) × IsPath path × (k.url ≡ endpoint c ++ path)

  -- such a request with the headers of the policy
  abbrev pub IsOurs : Headers → Call → Type 0
  IsOurs headers k = (k.headers ≡ headers) × IsBelow k

  abbrev pub IsSafe : Call → Type 0
  IsSafe k = IsGuarded c k.headers × IsBelow k

  entry-IsPath :
      (id : Text) (d : Document)
      → is_path_id id ≡ true
      → IsPath (collection c server encode d ++ (b'/' ∷ id))
  entry-IsPath id (submodel s) h = inr (inr (id, h, inl refl))
  entry-IsPath id (shell s) h = inr (inr (id, h, inr refl))

  collection-IsPath : (d : Document) → IsPath (collection c server encode d)
  collection-IsPath (submodel s) = inl refl
  collection-IsPath (shell s) = inr (inl refl)

  put_call-IsOurs :
      (headers : Headers) (id : Text) (d : Document)
      → is_path_id id ≡ true
      → IsOurs headers (put_call c server encode headers id d)
  put_call-IsOurs headers id d h =
      (refl, (collection c server encode d ++ (b'/' ∷ id), entry-IsPath id d h, refl))

  post_call-IsOurs :
      (headers : Headers) (d : Document) → IsOurs headers (post_call c server encode headers d)
  post_call-IsOurs headers d = (refl, (collection c server encode d, collection-IsPath d, refl))

  if-Calls :
      {A : Type 0} (P : Call → Type 0) (b : Bool) (y y' : List Call × A)
      → All P y.0
      → All P y'.0
      → All P (if b then y else y').0
  if-Calls P true y y' h k = h
  if-Calls P false y y' h k = k

  when-Calls :
      {A : Type 0} (P : Call → Type 0) (a b : Bool) (y y' : List Call × A)
      → (a ≡ true → All P y.0)
      → All P y'.0
      → All P (if a && b then y else y').0
  when-Calls P true true y y' h k = h refl
  when-Calls P true false y y' h k = k
  when-Calls P false b y y' h k = k

  settle_put-IsOurs :
      (headers : Headers) (id : Text) (d : Document) (a : Answer)
      → is_path_id id ≡ true
      → All (IsOurs headers) (settle_put c server encode headers id d a).0
  unfolding settle_put
  settle_put-IsOurs headers id d (answered code) h =
      let first = put_call-IsOurs headers id d h in
      if-Calls (IsOurs headers) (code == 200 || code == 201 || code == 204) _ _ (first, tt)
        (if-Calls (IsOurs headers) (code == 404) _ _ (first, (post_call-IsOurs headers d, tt))
          (first, tt))
  settle_put-IsOurs headers id d unreachable h = (put_call-IsOurs headers id d h, tt)
  settle_put-IsOurs headers id d timed_out h = (put_call-IsOurs headers id d h, tt)
  settle_put-IsOurs headers id d invalid_request h = (put_call-IsOurs headers id d h, tt)
  settle_put-IsOurs headers id d crashed h = (put_call-IsOurs headers id d h, tt)

  put_or_post-IsOurs :
      (headers : Headers) (id : Text) (d : Document)
      → All (IsOurs headers) (put_or_post c server encode headers id d).0
  unfolding put_or_post
  put_or_post-IsOurs headers id d =
      when-Calls (IsOurs headers) (is_path_id id) (is_allowed_url c server encode) _ ([], rejected)
        (settle_put-IsOurs headers id d (server (put_call c server encode headers id d))) tt

  after_document-IsOurs :
      (headers : Headers) (created updated : Bool) (e : Error) (y : List Call × Outcome)
      (rest : Bool → Sync c server encode)
      → All (IsOurs headers) y.0
      → ((new : Bool) → All (IsOurs headers) (rest new).0)
      → All (IsOurs headers) (after_document c server encode created updated e y rest).0
  unfolding after_document
  after_document-IsOurs headers created updated e (calls, stored new) rest h k =
      All-append (IsOurs headers) calls (rest new).0 h (k new)
  after_document-IsOurs headers created updated e (calls, failed) rest h k = h
  after_document-IsOurs headers created updated e (calls, rejected) rest h k = h
  after_document-IsOurs headers created updated e (calls, raised unreachable) rest h k = h
  after_document-IsOurs headers created updated e (calls, raised timed_out) rest h k = h
  after_document-IsOurs headers created updated e (calls, raised invalid_request) rest h k = h
  after_document-IsOurs headers created updated e (calls, raised crashed) rest h k = h
  after_document-IsOurs headers created updated e (calls, raised (answered n)) rest h k = h

  module _ (now : Text) (host : Host) (heartbeat : Option Heartbeat) where
    sync_documents-IsOurs :
        (lab : Text) (headers : Headers)
        → All (IsOurs headers) (sync_documents c server encode now host heartbeat lab headers).0
    unfolding sync_documents
    sync_documents-IsOurs lab headers =
        after_document-IsOurs headers false false _
          (put_nameplate c server encode now host heartbeat headers lab) _
          (put_or_post-IsOurs headers (encode (submodel_id_nameplate lab))
            (nameplate c server encode now host heartbeat lab))
          (λ new.
            after_document-IsOurs headers new (not new) _
              (put_technical c server encode now host heartbeat headers lab) _
              (put_or_post-IsOurs headers (encode (submodel_id_technical lab))
                (technical c server encode now host heartbeat lab))
              (λ _.
                after_document-IsOurs headers new (not new) _
                  (put_shell c server encode now host heartbeat headers lab) _
                  (put_or_post-IsOurs headers (encode (aas_id_for_lab lab))
                    (lab_shell c server encode now host heartbeat lab))
                  (λ _. tt)))

    IsOurs-IsSafe :
        (headers : Headers) → IsGuarded c headers → (k : Call) → IsOurs headers k → IsSafe k
    IsOurs-IsSafe headers g k (e, u) = (subst (IsGuarded c) (sym e) g, u)

    sync_lab-IsSafe :
        (lab : Text) (o : Option Headers)
        → OnSome (IsGuarded c) o
        → All IsSafe (sync_lab c server encode now host heartbeat lab o).0
    unfolding sync_lab
    sync_lab-IsSafe lab none g = tt
    sync_lab-IsSafe lab (some headers) g =
        All-imp (IsOurs headers) IsSafe
          (sync_documents c server encode now host heartbeat lab headers).0
          (IsOurs-IsSafe headers g) (sync_documents-IsOurs lab headers)

    IsSafe-if :
        (b : Bool) (y : Sync c server encode) (o : Option Report)
        → All IsSafe y.0
        → All IsSafe (if b then y else ([], o)).0
    IsSafe-if true y o h = h
    IsSafe-if false y o h = tt

    sync_valid-IsSafe :
        (o : Option Text) → All IsSafe (sync_valid c server encode now host heartbeat o).0
    unfolding sync_valid
    sync_valid-IsSafe none = tt
    sync_valid-IsSafe (some lab) =
        IsSafe-if (nonempty c.aas_url)
          (sync_lab c server encode now host heartbeat lab (aas_request_headers c)) _
          (sync_lab-IsSafe lab (aas_request_headers c) (aas_request_headers-IsGuarded c))

    -- The URL of every request that sync_lab_to_basyx makes is the configured endpoint followed by
    -- `/submodels` or `/shells`, alone or with `/` and an id of the allowed characters. The request
    -- carries no credential and that endpoint is the bundled server, or the endpoint is over HTTPS
    -- without userinfo to a host of the allowlist and the token is no placeholder.
    pub sync-IsSafe :
        (lab_id : Value)
        → All IsSafe (sync_lab_to_basyx c server encode now host heartbeat lab_id).0
    unfolding sync_lab_to_basyx
    sync-IsSafe lab_id = sync_valid-IsSafe (validate_lab_id lab_id)
