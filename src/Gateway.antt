-- ===== src/Gateway.antt =====
-- The sync gateway, src/main.rs. The merge of `syncer_rs` and the text form of serde_json are arguments.
pub mod Laws
use eal_sync.Prelude.{
  ℕ, Bool, true, false, ◌&&◌, if◌then◌else◌, List, [], ◌∷◌, ◌++◌, Option, none, some,
}
use eal_sync.Prelude.Text.{Text, codes, text_eq}
use eal_sync.Prelude.Json.{Json, string, object, field, end}
use eal_sync.Prelude.Result.{Result, ok, err, map_err, ◌>>=◌}

-- `syncer_rs`: its options, and the merge of two documents, or the text of an error
pub record Syncer : Type 1 where
  pub MergeOptions : Type 0
  pub ArrayMergeStrategy : Type 0
  pub merge_by_key : ArrayMergeStrategy
  pub default_options : MergeOptions
  pub with_options :
      ArrayMergeStrategy → Bool → Option Text → Option Text → MergeOptions → MergeOptions
  pub merge_json : Text → Text → MergeOptions → Result Text Text

-- serde_json: `to_string` and `from_str`
pub record SerdeJson : Type 0 where
  pub to_string : Json → Result Text Text
  pub from_str : Text → Result Text Json

pub record ReconcileRequest : Type 0 where
  pub base : Json
  pub incoming : Json

pub record ReconcileResponse : Type 0 where
  pub merged : Json
  pub engine : Text
  pub contract : Text

-- a response: the status, and a body if there is one
pub record HttpResponse : Type 0 where
  pub status : ℕ
  pub body : Option Json

pub data Method : Type 0 where
  http_get http_post : Method

module _ (syncer : Syncer) (serde : SerdeJson) where
  unfoldable pub merge_options : syncer.MergeOptions
  merge_options =
      syncer.with_options syncer.merge_by_key true (some (codes "updated_at,synced_at"))
        (some (codes "id")) syncer.default_options

  unfoldable pub reconcile_values : Json → Json → syncer.MergeOptions → Result Text Json
  reconcile_values base incoming options = do
    base ← serde.to_string base
    incoming ← serde.to_string incoming
    merged ← syncer.merge_json base incoming options
    serde.from_str merged

  -- the error of a handler is its response
  unfoldable pub reconcile :
      syncer.MergeOptions → ReconcileRequest → Result HttpResponse ReconcileResponse
  reconcile options request = do
    merged ← map_err merge_failed (reconcile_values request.base request.incoming options)
    ok (record {
      merged = merged;
      engine = codes "opto-sync/syncer.rs";
      contract = codes "eal_interfaces::AlertRule";
    })
    where
      merge_failed : Text → HttpResponse
      merge_failed message = record {
        status = 422;
        body = some (
            object (
              field (codes "error") (string (codes "merge_failed"))
                (field (codes "message") (string message) end)));
      }

  -- the response of a handler: `Json` of the struct has its fields in their order
  unfoldable pub respond : Result HttpResponse ReconcileResponse → HttpResponse
  respond (err response) = response
  respond (ok response) = record {
    status = 200;
    body = some (
        object (
          field (codes "merged") response.merged (
            field (codes "engine") (string response.engine)
              (field (codes "contract") (string response.contract) end))));
  }

pub data Endpoint : Type 0 where
  healthz readyz reconcile_endpoint : Endpoint

abbrev pub is_method : Method → Method → Bool
is_method http_get http_get = true
is_method http_post http_post = true
is_method _ _ = false

abbrev pub routes : List (Method × Text × Endpoint)
routes =
    (http_get, codes "/healthz", healthz)
    ∷ (http_get, codes "/readyz", readyz)
    ∷ (http_post, codes "/v1/reconcile", reconcile_endpoint)
    ∷ (http_post, codes "/api/v1/reconcile", reconcile_endpoint)
    ∷ []

-- the endpoint of a request; where there is none, axum answers by itself
unfoldable pub endpoint_of : Method → Text → List (Method × Text × Endpoint) → Option Endpoint
endpoint_of method path [] = none
endpoint_of method path ((m, p, endpoint) ∷ rest) =
    if is_method method m && text_eq path p then some endpoint else endpoint_of method path rest

module _ (syncer : Syncer) (serde : SerdeJson) where
  -- the handlers; the request is the body that axum read
  unfoldable pub handle : Endpoint → ReconcileRequest → HttpResponse
  handle healthz request = record {
    status = 200;
    body = some (
        object (
          field (codes "status") (string (codes "ok"))
            (field (codes "service") (string (codes "eal-sync")) end)));
  }
  handle readyz request = record { status = 204; body = none }
  handle reconcile_endpoint request =
      respond syncer serde (reconcile syncer serde (merge_options syncer serde) request)
