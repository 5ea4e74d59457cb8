-- ===== src/Graph/Issues.antt =====
-- `ValidationIssue` and `ValidationResult` of backend/graph/schema.py. The texts are left out.
use lluna.Prelude.{
  String, Bool, true, false, ◌&&◌, Option, none, some, List, [], ◌∷◌, ◌++◌, ◌≡◌, refl, arith, ◌⊎◌,
  inl, inr, if◌then◌else◌,
}

pub data Severity : Type 0 where
  error warning : Severity

pub data Code : Type 0 where
  no_selection duplicate_node_id unknown_node node_version node_unavailable model_capability
        required_parameter parameter_range select_object_input video_retouch_input
        model_not_available duplicate_edge_id dangling_edge unknown_port incompatible_ports
        batch_to_scalar duplicate_input boundary_input_unavailable unused_node missing_input cycle
        repeated_operation no_output :
      Code

pub record ValidationIssue : Type 0 where
  pub severity : Severity
  pub code : Code
  pub node_id : Option String
  pub edge_id : Option String

abbrev pub global : Severity → Code → ValidationIssue
global severity code = record { severity = severity; code = code; node_id = none; edge_id = none }

abbrev pub on_node : Severity → Code → String → ValidationIssue
on_node severity code id = record {
  severity = severity;
  code = code;
  node_id = some id;
  edge_id = none;
}

abbrev pub on_edge : Code → String → ValidationIssue
on_edge code id = record { severity = error; code = code; node_id = none; edge_id = some id }

-- `if test: issues.append(issue)`
abbrev pub flag : Bool → ValidationIssue → List ValidationIssue
flag test issue = if test then issue ∷ [] else []

unfoldable pub is_warning : ValidationIssue → Bool
is_warning issue = elim issue.severity [ error ↦ false | warning ↦ true ]

-- `not any(issue.severity == "error" for issue in issues)`
unfoldable pub no_errors : List ValidationIssue → Bool
unfolding is_warning
no_errors [] = true
no_errors (issue ∷ issues) = is_warning issue && no_errors issues

pub no_errors-append :
    (xs ys : List ValidationIssue) → no_errors (xs ++ ys) ≡ (no_errors xs && no_errors ys)
unfolding no_errors
no_errors-append [] ys = refl
no_errors-append (x ∷ xs) ys = ground (arith, no_errors-append xs ys)

pub no_errors-left :
    (xs ys : List ValidationIssue) → no_errors (xs ++ ys) ≡ true → no_errors xs ≡ true
no_errors-left xs ys h = ground (arith, no_errors-append xs ys)

pub no_errors-right :
    (xs ys : List ValidationIssue) → no_errors (xs ++ ys) ≡ true → no_errors ys ≡ true
no_errors-right xs ys h = ground (arith, no_errors-append xs ys)

pub no_errors-append_seven :
    (a b c d e f g : List ValidationIssue)
    → no_errors (a ++ b ++ c ++ d ++ e ++ f ++ g) ≡ true
    → (no_errors b ≡ true)
      × (no_errors c ≡ true)
      × (no_errors d ≡ true)
      × (no_errors e ≡ true)
      × (no_errors f ≡ true)
no_errors-append_seven a b c d e f g h =
    let f' = no_errors-left (a ++ b ++ c ++ d ++ e ++ f) g h in
    let e' = no_errors-left (a ++ b ++ c ++ d ++ e) f f' in
    let d' = no_errors-left (a ++ b ++ c ++ d) e e' in
    let c' = no_errors-left (a ++ b ++ c) d d' in
    (
      no_errors-right a b (no_errors-left (a ++ b) c c'),
      no_errors-right (a ++ b) c c',
      no_errors-right (a ++ b ++ c) d d',
      no_errors-right (a ++ b ++ c ++ d) e e',
      no_errors-right (a ++ b ++ c ++ d ++ e) f f',
    )

-- An error that is not reported does not hold.
pub no_errors-flag :
    (test : Bool) (issue : ValidationIssue)
    → is_warning issue ≡ false
    → no_errors (flag test issue) ≡ true
    → test ≡ false
unfolding no_errors
no_errors-flag true issue e h = ground arith
no_errors-flag false issue e h = refl

pub no_errors-two_flags :
    (a b : Bool) (i j : ValidationIssue) (rest : List ValidationIssue)
    → is_warning i ≡ false
    → is_warning j ≡ false
    → no_errors (flag a i ++ flag b j ++ rest) ≡ true
    → (a ≡ false) × (b ≡ false)
no_errors-two_flags a b i j rest e f h =
    let g = no_errors-left (flag a i ++ flag b j) rest h in
    (
      no_errors-flag a i e (no_errors-left (flag a i) (flag b j) g),
      no_errors-flag b j f (no_errors-right (flag a i) (flag b j) g),
    )

-- All issues that a loop over a list appends.
unfoldable pub flat_map {ℓ} :
    {A : Type ℓ} → (A → List ValidationIssue) → List A → List ValidationIssue
flat_map f [] = []
flat_map f (x ∷ xs) = f x ++ flat_map f xs

-- One of the members of a list.
abbrev pub Member : {A : Type 0} → A → List A → Type 0
Member x [] = ⊥
Member x (y ∷ ys) = (x ≡ y) ⊎ Member x ys

pub no_errors-flat_map :
    {A : Type 0} (f : A → List ValidationIssue) (x : A) (xs : List A)
    → Member x xs
    → no_errors (flat_map f xs) ≡ true
    → no_errors (f x) ≡ true
unfolding flat_map
no_errors-flat_map f x [] m h = elim m [ ]
no_errors-flat_map f x (y ∷ ys) (inl e) h = rw e (no_errors-left (f y) (flat_map f ys) h)
no_errors-flat_map f x (y ∷ ys) (inr m) h =
    no_errors-flat_map f x ys m (no_errors-right (f y) (flat_map f ys) h)
