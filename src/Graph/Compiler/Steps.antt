-- ===== src/Graph/Compiler/Steps.antt =====
-- The steps of a plan of backend/graph/compiler.py.
use mathlib.Core.Option
use lluna.Prelude.{
  ℕ, ◌+◌, String, ◌≡◌, refl, ◌↔◌, ◌⊎◌, inl, inr, Bool, true, false, not, ◌&&◌, Option, none, some,
  List, [], ◌∷◌, ◌++◌, if◌then◌else◌, arith, Option-cases, Bool-cases, map,
}
use lluna.Prelude.Key.{string_key}
use lluna.Prelude.Sets.{elem, update, elem-append, elem-update}
use lluna.Prelude.Perms.{elem-perm}
use lluna.Prelude.Dict.{Dict, get?, get_or, put, get?-put, get_or-put}
use lluna.Prelude.Sort.{sorted-perm}
use lluna.Graph.Schema.{WorkflowEdge, WorkflowNode, WorkflowDocument, ids, HasEdge}
use lluna.Graph.Order.{topological_order}
use lluna.Graph.Order.Loop.{IsOrdered}
use lluna.Graph.Order.Sequence.{Before, topological_order_lem}
use lluna.Graph.Compiler.{ExecutionStep, node_table, collect, step_of, steps_from, plan_steps}

-- The node is one of the workflow's.
abbrev pub is_some : Option WorkflowNode → Bool
is_some none = false
is_some (some node) = true

pub is_some-node_table :
    (id : String) (table : Dict String WorkflowNode) (nodes : List WorkflowNode)
    → is_some (get? id (node_table table nodes))
      ≡ (if elem id (map (λ node. node.id) nodes) then true else is_some (get? id table))
unfolding node_table elem
is_some-node_table id table [] = ground arith
is_some-node_table id table (node ∷ nodes) =
    ground
      (arith, is_some-node_table id (put node.id node table) nodes, get?-put node.id id node table)

-- An edge leads from one active node to another.
abbrev pub DependsOn : List String → List WorkflowEdge → String → String → Type 0
DependsOn active edges n d = (elem d active ≡ true) × (elem n active ≡ true) × HasEdge edges d n

elem-collect :
    (active : List String) (found : Dict String (List String)) (edges : List WorkflowEdge)
    (n d : String)
    → (elem d (get_or [] n (collect active found edges)) ≡ true)
      ↔ ((elem d (get_or [] n found) ≡ true) ⊎ DependsOn active edges n d)
unfolding collect elem
elem-collect active found [] n d = ground arith
elem-collect active found (edge ∷ edges) n d =
    let t = edge.target_node_id in
    let longer = get_or [] t found ++ edge.source_node_id ∷ [] in
    ground (
      arith,
      elem-collect active
          (if elem edge.source_node_id active && elem t active then put t longer found else found)
          edges n d,
      get_or-put [] t n longer found,
      elem-append d (get_or [] t found) (edge.source_node_id ∷ []),
      string_key.test_iff n t,
      string_key.test_iff d edge.source_node_id,
    )

module _ (workflow : WorkflowDocument) (active : List String) where
  abbrev pub table : Dict String WorkflowNode
  table = node_table [] workflow.nodes

  found : Dict String (List String)
  found = collect active [] workflow.edges

  abbrev pub is_off_node : Option WorkflowNode → Bool
  is_off_node none = false
  is_off_node (some node) = node.disabled

  -- The node is disabled.
  abbrev pub is_off : String → Bool
  is_off id = is_off_node (get? id table)

  -- Each step depends on the active nodes from which an edge leads to its node, and comes after the
  -- steps of those that are not disabled.
  abbrev pub IsPlan : List String → List ExecutionStep → Type 0
  IsPlan done [] = Unit
  IsPlan done (step ∷ steps) =
      ((d : String)
        → (elem d step.dependencies ≡ true) ↔ DependsOn active workflow.edges step.node_id d)
      × ((d : String) → elem d step.dependencies ≡ true → (elem d done ≡ true) ⊎ (is_off d ≡ true))
      × IsPlan (done ++ step.node_id ∷ []) steps

  elem-step_of :
      (index : ℕ) (node : WorkflowNode) (n d : String)
      → (elem d (step_of table found index node n).dependencies ≡ true)
        ↔ DependsOn active workflow.edges n d
  unfolding found elem get_or get?
  elem-step_of index node n d = ground (
    arith,
    elem-perm d (sorted-perm (update [] (get_or [] n (collect active [] workflow.edges)))),
    elem-update d [] (get_or [] n (collect active [] workflow.edges)),
    elem-collect active [] workflow.edges n d,
  )

  DependsOn-Before :
      (n d : String) → DependsOn active workflow.edges n d → Before workflow.edges active d n
  unfolding elem
  DependsOn-Before n d (a, b, e) =
      (ground (arith, elem-update d [] active, a), ground (arith, elem-update n [] active, b), e)

  -- The nodes that are ordered, but for the disabled ones.
  abbrev Covers : List String → List String → Type 0
  Covers seen done = (d : String) → elem d seen ≡ true → (elem d done ≡ true) ⊎ (is_off d ≡ true)

  steps_from-IsPlan :
      (index : ℕ) (order seen done : List String)
      → ((id : String) → elem id order ≡ true → is_some (get? id table) ≡ true)
      → IsOrdered (Before workflow.edges active) seen order
      → Covers seen done
      → (steps : List ExecutionStep) × (steps_from table found index order ≡ some steps)
        × IsPlan done steps
        × ((id : String)
            → elem id (map (λ step. step.node_id) steps) ≡ (elem id order && not (is_off id)))
  unfolding steps_from elem
  steps_from-IsPlan index [] seen done known ordered cover = ([], refl, tt, λ id. refl)
  steps_from-IsPlan index (n ∷ order) seen done known ordered cover =
      elim (Option-cases (get? n table)) [
        | inl gone ↦ absurd (ground (arith, known n, gone, string_key.test_iff n n))
        | inr (node, there) ↦ elim (Bool-cases node.disabled) [
          | inl off ↦
              let (steps, e, plan, members) =
                steps_from-IsPlan (index + 1) order (seen ++ n ∷ []) done
                  (λ id m. known id (ground (arith, m))) ordered.1
                  (λ d m. ground (
                    arith,
                    elem-append d seen (n ∷ []),
                    cover d,
                    m,
                    string_key.test_iff d n,
                    there,
                    off,
                  )) in
              (
                steps,
                rw (there, steps_from, off) e,
                plan,
                λ id. ground (arith, members id, there, off, string_key.test_iff id n),
              )
          | inr on ↦
              let (steps, e, plan, members) =
                steps_from-IsPlan (index + 1) order (seen ++ n ∷ []) (done ++ n ∷ [])
                  (λ id m. known id (ground (arith, m))) ordered.1
                  (λ d m. ground (
                    arith,
                    elem-append d seen (n ∷ []),
                    elem-append d done (n ∷ []),
                    cover d,
                    m,
                  )) in
              (
                step_of table found index node n ∷ steps,
                rw (there, steps_from, on, e) refl,
                (
                  λ d. elem-step_of index node n d,
                  λ d m.
                      cover d
                        (ordered.0 d (DependsOn-Before n d ((elem-step_of index node n d).0 m))),
                  plan,
                ),
                λ id. ground (arith, members id, there, on, string_key.test_iff id n),
              )
        ]
      ]

  -- For active nodes of the workflow, the plan is made: each step depends on the active nodes from
  -- which an edge leads to its node, and comes after the steps of those that are not disabled. The
  -- nodes with a step are those of the topological order that are not disabled.
  pub plan_steps_lem :
      ((id : String) → elem id active ≡ true → elem id (ids workflow) ≡ true)
      → (order : List String) × (steps : List ExecutionStep) × (topological_order workflow.edges
            active
          ≡ some order)
        × (plan_steps workflow active ≡ some steps)
        × IsPlan [] steps
        × ((id : String)
            → elem id (map (λ step. step.node_id) steps) ≡ (elem id order && not (is_off id)))
  unfolding plan_steps found elem get? Option.bind
  plan_steps_lem inside =
      let (order, made, _, given, ordered, _) = topological_order_lem workflow.edges active in
      let (steps, e, plan, members) =
        steps_from-IsPlan 0 order [] []
          (λ id m. ground (arith, is_some-node_table id [] workflow.nodes, inside id (given id m)))
          ordered (λ d m. inl m) in
      (order, steps, made, rw made e, plan, members)
