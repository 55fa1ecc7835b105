-- ===== src/Aas/Synced.antt =====
-- What a report of success rests on.
use lab_gateway.Prelude.{
  ℕ, Text, nonempty, ◌≡◌, refl, ◌⊎◌, inl, inr, Option, none, some, Bool, true, false, not, ◌&&◌,
  ◌||◌, List, [], ◌==◌, if◌then◌else◌,
}
use lab_gateway.Prelude.Value.{Value}
use lab_gateway.Aas.{
  Host, Heartbeat, validate_lab_id, aas_id_for_lab, submodel_id_nameplate, submodel_id_technical,
}
use lab_gateway.Aas.Endpoint.{Config, Headers, aas_request_headers}
use lab_gateway.Aas.Sync.{
  Document, Call, Answer, answered, unreachable, timed_out, invalid_request, crashed, Outcome,
  stored, failed, rejected, raised, Error, Report, Result, disabled, error, synced, is_path_id,
  is_allowed_url, put_call, post_call, settle_post, settle_put, put_or_post, Sync, after_document,
  nameplate, technical, lab_shell, put_nameplate, put_technical, put_shell, sync_documents,
  sync_lab, sync_valid, sync_lab_to_basyx,
}

-- what holds where a report is a success
abbrev pub OnSynced : Type 0 → Result → Type 0
OnSynced Q synced = Q
OnSynced Q _ = Unit

abbrev pub WhenSynced : Type 0 → Option Report → Type 0
WhenSynced Q none = Unit
WhenSynced Q (some r) = OnSynced Q r.result

on_result : (Q R : Type 0) (r : Result) → (Q → R) → OnSynced Q r → OnSynced R r
on_result Q R disabled f h = tt
on_result Q R (error e) f h = tt
on_result Q R synced f h = f h

abbrev WhenStored : (Bool → Type 0) → Outcome → Type 0
WhenStored P (stored new) = P new
WhenStored P failed = Unit
WhenStored P rejected = Unit
WhenStored P (raised _) = Unit

if-WhenStored :
    (P : Bool → Type 0) (b : Bool) (y y' : List Call × Outcome)
    → ((b ≡ true) → WhenStored P y.1)
    → ((b ≡ false) → WhenStored P y'.1)
    → WhenStored P (if b then y else y').1
if-WhenStored P true y y' h k = h refl
if-WhenStored P false y y' h k = k refl

module _ (c : Config) (server : Call → Answer) (encode : Text → Text) where
  -- the server took the document: with a PUT, or with the POST after a 404
  abbrev pub IsTaken : Headers → Text → Document → Type 0
  IsTaken headers id d =
      (code : ℕ) × (server (put_call c server encode headers id d) ≡ answered code)
      × (((code == 200 || code == 201 || code == 204) ≡ true)
          ⊎ (((code == 404) ≡ true)
              × ((code' : ℕ) × (server (post_call c server encode headers d) ≡ answered code')
                  × ((code' == 200 || code' == 201) ≡ true))))

  IsPosted : Headers → Document → Type 0
  IsPosted headers d =
      (code : ℕ) × (server (post_call c server encode headers d) ≡ answered code)
      × ((code == 200 || code == 201) ≡ true)

  if-stored :
      (Q : Type 0) (b : Bool)
      → ((b ≡ true) → Q)
      → WhenStored (λ _. Q) (if b then stored true else failed)
  if-stored Q true h = h refl
  if-stored Q false h = tt

  settle_post-IsPosted :
      (headers : Headers) (d : Document) (a : Answer)
      → server (post_call c server encode headers d) ≡ a
      → WhenStored (λ _. IsPosted headers d) (settle_post c server encode a)
  unfolding settle_post IsPosted
  settle_post-IsPosted headers d (answered code) e =
      if-stored (IsPosted headers d) (code == 200 || code == 201) (λ q. (code, e, q))
  settle_post-IsPosted headers d unreachable e = tt
  settle_post-IsPosted headers d timed_out e = tt
  settle_post-IsPosted headers d invalid_request e = tt
  settle_post-IsPosted headers d crashed e = tt

  WhenStored-imp :
      (Q R : Type 0) (o : Outcome) → (Q → R) → WhenStored (λ _. Q) o → WhenStored (λ _. R) o
  WhenStored-imp Q R (stored new) f h = f h
  WhenStored-imp Q R failed f h = tt
  WhenStored-imp Q R rejected f h = tt
  WhenStored-imp Q R (raised _) f h = tt

  settle_put-IsTaken :
      (headers : Headers) (id : Text) (d : Document) (a : Answer)
      → server (put_call c server encode headers id d) ≡ a
      → WhenStored (λ _. IsTaken headers id d) (settle_put c server encode headers id d a).1
  unfolding settle_put IsPosted
  settle_put-IsTaken headers id d (answered code) e =
      let Taken = λ (_ : Bool). IsTaken headers id d in
      if-WhenStored Taken (code == 200 || code == 201 || code == 204) _ _ (λ q. (code, e, inl q))
        (λ _.
          if-WhenStored Taken (code == 404) _ _
            (λ q.
              WhenStored-imp (IsPosted headers d) (IsTaken headers id d)
                (settle_post c server encode (server (post_call c server encode headers d)))
                (λ (p : IsPosted headers d). (code, e, inr (q, p)))
                (settle_post-IsPosted headers d (server (post_call c server encode headers d))
                  refl))
            (λ _. tt))
  settle_put-IsTaken headers id d unreachable e = tt
  settle_put-IsTaken headers id d timed_out e = tt
  settle_put-IsTaken headers id d invalid_request e = tt
  settle_put-IsTaken headers id d crashed e = tt

  put_or_post-IsTaken :
      (headers : Headers) (id : Text) (d : Document)
      → WhenStored (λ _. IsTaken headers id d) (put_or_post c server encode headers id d).1
  unfolding put_or_post
  put_or_post-IsTaken headers id d =
      if-WhenStored (λ _. IsTaken headers id d) (is_path_id id && is_allowed_url c server encode) _
        ([], rejected)
        (λ _. settle_put-IsTaken headers id d (server (put_call c server encode headers id d)) refl)
        (λ _. tt)

  after_document-Synced :
      (Q R : Type 0) (created updated : Bool) (e : Error) (y : List Call × Outcome)
      (rest : Bool → Sync c server encode)
      → WhenStored (λ _. Q) y.1
      → (Q → (new : Bool) → WhenSynced R (rest new).1)
      → WhenSynced R (after_document c server encode created updated e y rest).1
  unfolding after_document
  after_document-Synced Q R created updated e (calls, stored new) rest h k = k h new
  after_document-Synced Q R created updated e (calls, failed) rest h k = tt
  after_document-Synced Q R created updated e (calls, rejected) rest h k = tt
  after_document-Synced Q R created updated e (calls, raised unreachable) rest h k = tt
  after_document-Synced Q R created updated e (calls, raised timed_out) rest h k = tt
  after_document-Synced Q R created updated e (calls, raised invalid_request) rest h k = tt
  after_document-Synced Q R created updated e (calls, raised crashed) rest h k = tt
  after_document-Synced Q R created updated e (calls, raised (answered n)) rest h k = tt

  module _ (now : Text) (host : Host) (heartbeat : Option Heartbeat) where
    -- the server took all three documents of the lab
    abbrev pub AreTaken : Text → Headers → Type 0
    AreTaken lab headers =
        IsTaken headers (encode (submodel_id_nameplate lab))
          (nameplate c server encode now host heartbeat lab)
        × IsTaken headers (encode (submodel_id_technical lab))
            (technical c server encode now host heartbeat lab)
        × IsTaken headers (encode (aas_id_for_lab lab))
            (lab_shell c server encode now host heartbeat lab)

    abbrev pub IsDone : Option Text → Type 0
    IsDone o =
        (lab : Text) × (o ≡ some lab)
        × ((headers : Headers) × (aas_request_headers c ≡ some headers) × AreTaken lab headers)

    sync_documents-AreTaken :
        (lab : Text) (headers : Headers)
        → WhenSynced
            (AreTaken lab headers)
            (sync_documents c server encode now host heartbeat lab headers).1
    unfolding sync_documents
    sync_documents-AreTaken lab headers =
        after_document-Synced _ (AreTaken lab headers) false false _
          (put_nameplate c server encode now host heartbeat headers lab) _
          (put_or_post-IsTaken headers (encode (submodel_id_nameplate lab))
            (nameplate c server encode now host heartbeat lab))
          (λ first new.
            after_document-Synced _ (AreTaken lab headers) new (not new) _
              (put_technical c server encode now host heartbeat headers lab) _
              (put_or_post-IsTaken headers (encode (submodel_id_technical lab))
                (technical c server encode now host heartbeat lab))
              (λ second _.
                after_document-Synced _ (AreTaken lab headers) new (not new) _
                  (put_shell c server encode now host heartbeat headers lab) _
                  (put_or_post-IsTaken headers (encode (aas_id_for_lab lab))
                    (lab_shell c server encode now host heartbeat lab))
                  (λ third _. (first, second, third))))

    WhenSynced-imp : (Q R : Type 0) (o : Option Report) → (Q → R) → WhenSynced Q o → WhenSynced R o
    WhenSynced-imp Q R none f h = tt
    WhenSynced-imp Q R (some r) f h = on_result Q R r.result f h

    sync_lab-IsDone :
        (lab : Text) (o : Option Headers)
        → aas_request_headers c ≡ o
        → WhenSynced (IsDone (some lab)) (sync_lab c server encode now host heartbeat lab o).1
    unfolding sync_lab
    sync_lab-IsDone lab none e = tt
    sync_lab-IsDone lab (some headers) e =
        WhenSynced-imp (AreTaken lab headers) (IsDone (some lab))
          (sync_documents c server encode now host heartbeat lab headers).1
          (λ (h : AreTaken lab headers). (lab, refl, (headers, e, h)))
          (sync_documents-AreTaken lab headers)

    if-WhenSynced :
        (Q : Type 0) (b : Bool) (y y' : Sync c server encode)
        → WhenSynced Q y.1
        → WhenSynced Q y'.1
        → WhenSynced Q (if b then y else y').1
    if-WhenSynced Q true y y' h k = h
    if-WhenSynced Q false y y' h k = k

    sync_valid-IsDone :
        (o : Option Text)
        → WhenSynced (IsDone o) (sync_valid c server encode now host heartbeat o).1
    unfolding sync_valid
    sync_valid-IsDone none = tt
    sync_valid-IsDone (some lab) =
        if-WhenSynced (IsDone (some lab)) (nonempty c.aas_url)
          (sync_lab c server encode now host heartbeat lab (aas_request_headers c)) _
          (sync_lab-IsDone lab (aas_request_headers c) refl) tt

    -- A synchronisation that reports success had a lab id that was validated and headers that the
    -- policy gave, and the server took the nameplate, the technical data and the shell of that lab:
    -- each with a PUT answered by 200, 201 or 204, or with a POST answered by 200 or 201 after a
    -- PUT answered by 404.
    pub sync-IsDone :
        (lab_id : Value)
        → WhenSynced
            (IsDone (validate_lab_id lab_id))
            (sync_lab_to_basyx c server encode now host heartbeat lab_id).1
    unfolding sync_lab_to_basyx
    sync-IsDone lab_id = sync_valid-IsDone (validate_lab_id lab_id)
