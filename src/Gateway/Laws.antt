-- ===== src/Gateway/Laws.antt =====
-- What the reconcile endpoints answer.
use eal_sync.Prelude.{◌≡◌, refl}
use eal_sync.Prelude.Text.{Text, codes}
use eal_sync.Prelude.Json.{Json}
use eal_sync.Prelude.Result.{ok}
use eal_sync.Gateway.{
  Syncer, SerdeJson, merge_options, reconcile_values, reconcile, respond, handle,
  reconcile_endpoint,
}

-- Where the text form of serde_json is read back and a document merged with itself is itself, to
-- reconcile a document with itself answers 200 with it.
reconcile_same :
    (syncer : Syncer) (serde : SerdeJson) (value : Json) (text : Text)
    → serde.to_string value ≡ ok text
    → serde.from_str text ≡ ok value
    → syncer.merge_json text text (merge_options syncer serde) ≡ ok text
    → handle syncer serde reconcile_endpoint (record { base = value; incoming = value })
      ≡ respond syncer serde (
          ok (record {
            merged = value;
            engine = codes "opto-sync/syncer.rs";
            contract = codes "eal_interfaces::AlertRule";
          }))
unfolding handle respond reconcile reconcile_values
reconcile_same syncer serde value text printed parsed merged = rw (printed, merged, parsed) refl
