-- ===== src/Index/Snapshot/Samples.antt =====
-- A report over a graph, both current: select_snapshot_artifacts keeps them, and the theorem there;
-- a report over another version of the graph is left out.
use parliament.Base.{All, ok, ℕ, String, ◌≡◌, refl, true, [], ◌∷◌, ◌<◌, false, some}
use parliament.Value.{Value, obj, arr, str, num, field, end, cons, nil, pos, null}
use parliament.Sources.{Source}
use parliament.Artifacts.{Artifact, last_where, is_logical}
use parliament.Index.{group_id_version}
use parliament.Index.Snapshot.{Snapshot, select_snapshot_artifacts}
use parliament.Index.Snapshot.Standing.{IsValid}
use parliament.Index.Snapshot.Resting.{Rests, select_snapshot_artifacts-Rests}

abbrev print : Value → String
print v = "f"

abbrev bill : Source
bill = record {
  scope = "bill:1";
  fingerprint = "new";
  generation = 2;
  payload = null;
  active = true;
}

abbrev item : Value
item = obj (
    field "fingerprint" (str "new")
      (field "generation" (num (pos 2)) (field "scope" (str "bill:1") end)))

abbrev graph : Artifact
graph = record {
  kind = "graph";
  key = "bill:1";
  version = "v1";
  dependency = obj (
      field "model_signature" (str "m@1")
        (field "prompt_version" (str "p2") (field "sources" (arr (cons item nil)) end)));
  payload = null;
  current = true;
}

abbrev child : String → Value
child version =
    obj
      (field "key" (str "bill:1") (field "kind" (str "graph") (field "version" (str version) end)))

abbrev report : String → Artifact
report version = record {
  kind = "community";
  key = version;
  version = "r1";
  dependency = obj (
      field "children" (arr (cons (child version) nil)) (
        field "group_id_version" (str group_id_version) (
          field "model_signature" (str "m@1")
            (field "prompt_version" (str "p2") (field "sources" (arr (cons item nil)) end)))));
  payload = null;
  current = true;
}

abbrev active : Artifact
active = record {
  kind = "model";
  key = "active";
  version = "m1";
  dependency = obj end;
  payload = obj (field "model_signature" (str "m@1") (field "prompt_version" (str "p2") end));
  current = true;
}

abbrev captured : Snapshot
captured = record {
  sources = bill ∷ [];
  model = some active;
  graphs = graph ∷ [];
  communities = report "v0" ∷ report "v1" ∷ [];
}

selected : select_snapshot_artifacts print captured false ≡ ok (report "v1" ∷ [])
unfolding select_snapshot_artifacts last_where is_logical
selected = refl

select_snapshot_artifacts-Rests_example :
    All
      (λ a.
        (n : ℕ) (c : Artifact) → Rests print captured n a c → (n < 10) × IsValid print captured c)
      (report "v1" ∷ [])
select_snapshot_artifacts-Rests_example =
    select_snapshot_artifacts-Rests print captured false (report "v1" ∷ []) selected
