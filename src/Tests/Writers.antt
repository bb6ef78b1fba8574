-- ===== src/Tests/Writers.antt =====
-- The theorems on the writer of orders and on the local report files, at concrete inputs.
use kube_data_guard.Common.{◌≡◌, refl, List, [], ◌∷◌, length}
use kube_data_guard.Common.Int.{pos}
use kube_data_guard.Python.{ok}
use kube_data_guard.Outbox.{
  Tables, Draw, Writers, order_event_payload, insert_order_with_event, mark_event_published,
  generate_orders, outbox_counts, event_type_of,
}
use kube_data_guard.Outbox.Published.{LeavesAfter, generate_orders-Leaves}
use kube_data_guard.Outbox.Counted.{generate_orders-counts}
use kube_data_guard.Reporting.{ReportSettings, ReportFile}

abbrev draws : List Draw
draws =
    record { customer_id = "customer-001"; status = "paid"; amount_cents = pos 1200 }
    ∷ record { customer_id = "customer-002"; status = "created"; amount_cents = pos 3000 }
    ∷ []

abbrev writers : Writers
writers = record {
  new_order = λ d t. record {
    id = d.customer_id;
    customer_id = d.customer_id;
    status = d.status;
    amount_cents = d.amount_cents;
    currency = "USD";
    version = pos 1;
    created_at = pos 63916862410000000;
    updated_at = pos 63916862410000000;
  };
  new_event_id = λ p t. p.order_id;
  now = λ t. pos 63916862410000000;
  send = λ id p t.
      ok (record { topic = "orders.events"; partition = pos 0; offset = pos (length t.outbox) });
}

abbrev no_orders : Tables
no_orders = record { orders = []; outbox = [] }

generate_orders-Leaves_example : LeavesAfter (generate_orders writers draws [] no_orders)
generate_orders-Leaves_example = generate_orders-Leaves writers draws [] no_orders tt

generate_orders-counts_example :
    ((outbox_counts
        (pos 63916862420000000)
        (pos 5)
        (generate_orders writers draws [] no_orders).tables).unpublished_count
      ≡ 0)
    × ((outbox_counts
          (pos 63916862420000000)
          (pos 5)
          (generate_orders writers draws [] no_orders).tables).published_count
        ≡ (outbox_counts
            (pos 63916862420000000)
            (pos 5)
            (generate_orders writers draws [] no_orders).tables).event_count)
    × ((outbox_counts
          (pos 63916862420000000)
          (pos 5)
          (generate_orders writers draws [] no_orders).tables).offset_recorded_count
        ≡ (outbox_counts
            (pos 63916862420000000)
            (pos 5)
            (generate_orders writers draws [] no_orders).tables).event_count)
    × (length (generate_orders writers draws [] no_orders).generated ≡ length draws)
unfolding generate_orders insert_order_with_event order_event_payload event_type_of
    mark_event_published
generate_orders-counts_example =
    generate_orders-counts writers draws no_orders (pos 63916862420000000) (pos 5) tt refl

abbrev keeping : ReportSettings
keeping = record {
  report_bucket = "";
  report_prefix = "";
  report_s3_sse = "";
  report_s3_kms_key_id = "";
  report_retention_days = pos 30;
  report_retention_count = pos 1;
}

abbrev report_files : List ReportFile
report_files =
    record { name = "drift-1.json"; modified = pos 63916862410000000 }
    ∷ record { name = "drift-1.compact.json"; modified = pos 63916862410000000 }
    ∷ record { name = "drift-2.json"; modified = pos 63916862420000000 }
    ∷ []
