-- ===== src/Runs/Execution/Reads/Invariant.antt =====
-- What holds of the steps of a run, in whatever order they come.
use lluna.Prelude.{true, ℕ, String, List, [], ◌≡◌, concat}
use lluna.Prelude.Key.{string_key}
use lluna.Prelude.Sets.{elem}
use lluna.Graph.Schema.{WorkflowEdge, HasEdge}
use lluna.Graph.Scheduler.Dependencies.{Depends}
use lluna.Graph.Scheduler.Levels.{IsLevelled}
use lluna.Runs.Values.{Store, source_key, incoming_of}
use lluna.Runs.Execution.{Execution}
use lluna.Runs.Execution.Steps.{
  Reach, begun, enters, reads, stores, advances, fails, stops, proceeds,
}
use lluna.Runs.Execution.Reads.Validity.{
  Inv, Inv-begin_steps, Inv-enter, Inv-read_inputs, Inv-store_step,
}
use lluna.Runs.Execution.Reads.Collecting.{Inv-advance, Inv-fail, Inv-next_wave}

module _ (node_ids : List String) (edges : List WorkflowEdge) where
  module _ (no_loop : (n : String) → elem n node_ids ≡ true → HasEdge edges n n → ⊥)
      (values : Store) (waves : List (List String)) (total : ℕ)
      (levels : IsLevelled (Depends node_ids edges) [] waves)
      (members : (n : String) → elem n (concat waves) ≡ elem n node_ids) where
    pub Reach-Inv :
        (s : Execution) → Reach values (incoming_of edges) waves total s → Inv node_ids edges s
    Reach-Inv _ begun = Inv-begin_steps node_ids edges values waves total levels members
    Reach-Inv _ (enters n s r) = Inv-enter node_ids edges n s (Reach-Inv s r)
    Reach-Inv _ (reads n s r) = Inv-read_inputs node_ids edges n s (Reach-Inv s r)
    Reach-Inv _ (stores outputs n result s r) =
        Inv-store_step node_ids edges no_loop outputs n result s (Reach-Inv s r)
    Reach-Inv _ (advances n s r) = Inv-advance node_ids edges n s (Reach-Inv s r)
    Reach-Inv _ (fails n code s r) = Inv-fail node_ids edges n code s (Reach-Inv s r)
    Reach-Inv _ (stops s r) =
        let inv = Reach-Inv s r in
        record {
          levelled = inv.levelled;
          active = inv.active;
          settled = inv.settled;
          kept = inv.kept;
          collects = inv.collects;
          begins = inv.begins;
          same = inv.same;
        }
    Reach-Inv _ (proceeds s r) = Inv-next_wave node_ids edges s (Reach-Inv s r)
