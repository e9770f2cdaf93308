-- ===== src/Examples/Metrics.antt =====
-- Instances of what is proved of src/platform_ops/incidents/metrics.py: a fault of the raw source, planted before the
-- staging model's incident opened and repaired after it, and one check that failed.
use data_platform_ops.Prelude.{
  ◌≤◌, none, true, ◌≡◌, refl, arith, some, [], ◌∷◌, All, keep, length, any_of,
}
use data_platform_ops.Metadata.Graph.Search.{by_search}
use data_platform_ops.Metadata.Lineage.{build_graph, upstream}
use data_platform_ops.Incidents.Policy.{sev2}
use data_platform_ops.Incidents.Desk.Tables.{NoticeKind, failing_at}
use data_platform_ops.Incidents.Desk.Writes.Numbers.{end, then_next}
use data_platform_ops.Incidents.Metrics.{
  FaultTruth, History, one_incident_per_fault, caused_by, compute, outcome_of, matched_ids,
  numbers_of,
}
use data_platform_ops.Incidents.Metrics.Graded.{
  compute-one_per_fault, compute-alerts, amount, entries, goes_to,
}
use data_platform_ops.Examples.Samples.{raw_id, nodes, registry, same_text}
use data_platform_ops.Examples.Rerun.{opened_before, failing_event}

abbrev planted_fault : FaultTruth
planted_fault = record {
  fault_id = "fault-1";
  fault_type = "late";
  target = "raw.raw";
  source_id = raw_id;
  expected_check = "not_null";
  injected_at = 40;
  repaired_at = some 200;
  owner = "bo";
  team = "data";
}

abbrev past : History
past = record {
  incidents = opened_before ∷ [];
  events = failing_event ∷ [];
  notifications =
      record {
        incident = 1;
        kind = NoticeKind.page;
        run_id = "run-1";
        recipient = "bo";
        team = "data";
        severity = sev2;
        text = failing_at 1 "model.stg";
        sent_at = 60;
        delivered = none;
      }
      ∷ [];
}

past-one_per_fault :
    one_incident_per_fault
      (compute by_search same_text past (planted_fault ∷ []) (build_graph nodes) nodes registry 300)
    ≡ true
unfolding one_incident_per_fault compute outcome_of matched_ids numbers_of caused_by upstream
    build_graph by_search
past-one_per_fault = refl

compute-one_per_fault_example :
    All
      (λ t.
        length (keep (caused_by by_search same_text (build_graph nodes) 300 t) (opened_before ∷ []))
        ≡ 1)
      (planted_fault ∷ [])
    × All
        (λ i.
          any_of
            (λ t. caused_by by_search same_text (build_graph nodes) 300 t i)
            (planted_fault ∷ [])
          ≡ true)
        (opened_before ∷ [])
compute-one_per_fault_example =
    compute-one_per_fault by_search same_text past (planted_fault ∷ []) (build_graph nodes) nodes
      registry 300 (then_next (omega arith) end) past-one_per_fault

compute-alerts_example :
    (amount "bo"
        (compute by_search same_text past
          (planted_fault ∷ [])
          (build_graph nodes)
          nodes
          registry
          300).alerts_before
      ≡ length (keep (goes_to by_search same_text nodes registry "bo") (failing_event ∷ [])))
    × (amount "bo"
          (compute by_search same_text past
            (planted_fault ∷ [])
            (build_graph nodes)
            nodes
            registry
            300).alerts_after
        ≡ 1)
    × (entries "bo"
          (compute by_search same_text past
            (planted_fault ∷ [])
            (build_graph nodes)
            nodes
            registry
            300).alerts_before
        ≤ 1)
    × (entries "bo"
          (compute by_search same_text past
            (planted_fault ∷ [])
            (build_graph nodes)
            nodes
            registry
            300).alerts_after
        ≤ 1)
compute-alerts_example =
    compute-alerts by_search same_text past (planted_fault ∷ []) (build_graph nodes) nodes registry
      300 "bo"
