-- ===== src/Aas/Sync.antt =====
-- `_put_or_post` and `sync_lab_to_basyx` of ops-worker/aas_generator.py. The server is a function
-- from a request to its answer, and the requests that are sent are listed in their order.
use lab_gateway.Prelude.{
  ℕ, Text, codes, nonempty, text_eq, Option, none, some, Bool, true, false, not, ◌&&◌, ◌||◌, List,
  [], ◌∷◌, ◌++◌, length, leb, ◌==◌, if◌then◌else◌,
}
use lab_gateway.Prelude.Value.{Value}
use lab_gateway.Aas.{
  Host, Heartbeat, Submodel, Shell, are_id_chars, validate_lab_id, aas_id_for_lab,
  submodel_id_nameplate, submodel_id_technical, build_nameplate_submodel,
  build_technical_data_submodel, build_physical_aas_shell,
}
use lab_gateway.Aas.Endpoint.{
  Parts, Config, Headers, bundled_url, endpoint, is_allowed_endpoint, aas_request_headers,
}

pub data Method : Type 0 where
  put post : Method

pub data Document : Type 0 where
  submodel : Submodel → Document
  shell : Shell → Document

pub record Call : Type 0 where
  pub method : Method
  pub url : Text
  pub headers : Headers
  pub document : Document

pub data Answer : Type 0 where
  answered : ℕ → Answer
  -- requests' ConnectionError
  unreachable : Answer
  -- requests' Timeout
  timed_out : Answer
  -- an exception of requests that is a ValueError, as InvalidURL and InvalidHeader are
  invalid_request : Answer
  -- any other exception
  crashed : Answer

pub data Outcome : Type 0 where
  -- whether it was created
  stored : Bool → Outcome
  failed : Outcome
  -- ValueError
  rejected : Outcome
  -- what `requests` raised
  raised : Answer → Outcome

pub data Error : Type 0 where
  lab_id_rejected : Error
  policy_rejected : Error
  nameplate_failed : Error
  technical_failed : Error
  shell_failed : Error
  server_unreachable : Error
  server_timeout : Error

pub data Result : Type 0 where
  disabled : Result
  error : Error → Result
  synced : Result

pub record Report : Type 0 where
  pub created : Bool
  pub updated : Bool
  pub result : Result

-- the rest of the path after "/shells/" or "/submodels/", by `re.fullmatch`
unfoldable pub is_path_id : Text → Bool
unfolding are_id_chars
is_path_id s = nonempty s && leb (length s) 1024 && are_id_chars s

-- `urlsafe_b64encode` without its padding is `encode`
module _ (c : Config) (server : Call → Answer) (encode : Text → Text) where
  abbrev pub collection : Document → Text
  collection (submodel _) = codes "/submodels"
  collection (shell _) = codes "/shells"

  abbrev pub put_call : Headers → Text → Document → Call
  put_call headers id d = record {
    method = put;
    url = endpoint c ++ (collection d ++ (b'/' ∷ id));
    headers = headers;
    document = d;
  }

  abbrev pub post_call : Headers → Document → Call
  post_call headers d = record {
    method = post;
    url = endpoint c ++ collection d;
    headers = headers;
    document = d;
  }

  unfoldable pub settle_post : Answer → Outcome
  settle_post (answered code) = if code == 200 || code == 201 then stored true else failed
  settle_post a = raised a

  -- the POST after a 404, or what the PUT came to
  unfoldable pub settle_put : Headers → Text → Document → Answer → List Call × Outcome
  unfolding settle_post endpoint
  settle_put headers id d (answered code) =
      if code == 200 || code == 201 || code == 204
      then (put_call headers id d ∷ [], stored (code == 201))
      else if code == 404
      then (
        put_call headers id d ∷ post_call headers d ∷ [],
        settle_post (server (post_call headers d)),
      )
      else (put_call headers id d ∷ [], failed)
  settle_put headers id d a = (put_call headers id d ∷ [], raised a)

  abbrev parts_allowed : Option Parts → Bool
  parts_allowed none = false
  parts_allowed (some p) = is_allowed_endpoint c.allowed_hosts p

  unfoldable pub is_allowed_url : Bool
  unfolding endpoint is_allowed_endpoint text_eq
  is_allowed_url = text_eq (endpoint c) bundled_url || parts_allowed (c.urlsplit (endpoint c))

  -- `_put_or_post`
  unfoldable pub put_or_post : Headers → Text → Document → List Call × Outcome
  unfolding is_path_id is_allowed_url settle_put endpoint
  put_or_post headers id d =
      if is_path_id id && is_allowed_url
      then settle_put headers id d (server (put_call headers id d))
      else ([], rejected)

  -- the calls so far, and the report, `none` where an exception is not caught
  abbrev pub Sync : Type 0
  Sync = List Call × Option Report

  abbrev report : Bool → Bool → Result → Option Report
  report created updated r = some (record { created = created; updated = updated; result = r })

  -- what follows a document
  unfoldable pub after_document : Bool → Bool → Error → List Call × Outcome → (Bool → Sync) → Sync
  after_document created updated e (calls, stored new) rest =
      let more = rest new in (calls ++ more.0, more.1)
  after_document created updated e (calls, failed) rest = (calls, report created updated (error e))
  after_document created updated e (calls, rejected) rest =
      (calls, report created updated (error policy_rejected))
  after_document created updated e (calls, raised unreachable) rest =
      (calls, report created updated (error server_unreachable))
  after_document created updated e (calls, raised timed_out) rest =
      (calls, report created updated (error server_timeout))
  after_document created updated e (calls, raised invalid_request) rest =
      (calls, report created updated (error policy_rejected))
  after_document created updated e (calls, raised _) rest = (calls, none)

  module _ (now : Text) (host : Host) (heartbeat : Option Heartbeat) where
    abbrev pub nameplate : Text → Document
    nameplate lab = submodel (build_nameplate_submodel now lab host)

    abbrev pub technical : Text → Document
    technical lab = submodel (build_technical_data_submodel now lab heartbeat)

    abbrev pub lab_shell : Text → Document
    lab_shell lab = shell (build_physical_aas_shell lab host)

    abbrev pub put_nameplate : Headers → Text → List Call × Outcome
    put_nameplate headers lab =
        put_or_post headers (encode (submodel_id_nameplate lab)) (nameplate lab)

    abbrev pub put_technical : Headers → Text → List Call × Outcome
    put_technical headers lab =
        put_or_post headers (encode (submodel_id_technical lab)) (technical lab)

    abbrev pub put_shell : Headers → Text → List Call × Outcome
    put_shell headers lab = put_or_post headers (encode (aas_id_for_lab lab)) (lab_shell lab)

    -- the three documents in their order; only the first decides `created` and `updated`
    unfoldable pub sync_documents : Text → Headers → Sync
    unfolding after_document put_or_post build_nameplate_submodel build_technical_data_submodel
        build_physical_aas_shell submodel_id_nameplate submodel_id_technical aas_id_for_lab
    sync_documents lab headers =
        after_document false false nameplate_failed (put_nameplate headers lab) (λ new.
          after_document new (not new) technical_failed (put_technical headers lab) (λ _.
            after_document new (not new) shell_failed (put_shell headers lab)
              (λ _. ([], report new (not new) synced))))

    unfoldable pub sync_lab : Text → Option Headers → Sync
    unfolding sync_documents
    sync_lab lab none = ([], report false false (error policy_rejected))
    sync_lab lab (some headers) = sync_documents lab headers

    -- with the lab id that was validated
    unfoldable pub sync_valid : Option Text → Sync
    unfolding sync_lab aas_request_headers
    sync_valid none = ([], report false false (error lab_id_rejected))
    sync_valid (some lab) =
        if nonempty c.aas_url
        then sync_lab lab (aas_request_headers c)
        else ([], report false false disabled)

    -- `sync_lab_to_basyx`
    unfoldable pub sync_lab_to_basyx : Value → Sync
    unfolding validate_lab_id sync_valid
    sync_lab_to_basyx lab_id = sync_valid (validate_lab_id lab_id)
