-- ===== src/Graph/Order/Loop.antt =====
-- The loops of `topological_order` in backend/graph/validation.py keep the counters right.
use lluna.Prelude.{
  ℕ, zero, suc, ◌+◌, ◌-◌, ◌≤◌, ◌<◌, String, ◌≡◌, refl, true, false, some, List, [], ◌∷◌, ◌++◌,
  length, length-append, append_assoc, append-nil, if◌then◌else◌, nat_beq, arith, Bool-cases, inl,
  inr,
}
use lluna.Prelude.Key.{string_key}
use lluna.Prelude.Sets.{elem, elem-append, elem_head}
use lluna.Prelude.Distinct.{IsDistinct, IsDistinct-snoc, length-le, not_elem_of_IsDistinct}
use lluna.Prelude.Dict.{Dict, get_or, put, get_or-put}
use lluna.Graph.Schema.{WorkflowEdge}
use lluna.Graph.Order.{release, run}
use lluna.Graph.Order.Counts.{
  count, pending, targets, Precedes, pending-snoc, ordered_of_no_pending, targets-elem,
}

-- Every node stands behind the nodes that precede it.
abbrev pub IsOrdered : (String → String → Type 0) → List String → List String → Type 0
IsOrdered R seen [] = Unit
IsOrdered R seen (t ∷ ts) =
    ((s : String) → R s t → elem s seen ≡ true) × IsOrdered R (seen ++ t ∷ []) ts

IsOrdered-snoc :
    (R : String → String → Type 0) (seen ts : List String) (t : String)
    → IsOrdered R seen ts
    → ((s : String) → R s t → elem s (seen ++ ts) ≡ true)
    → IsOrdered R seen (ts ++ t ∷ [])
IsOrdered-snoc R seen [] t h new = (rw append-nil at new, tt)
IsOrdered-snoc R seen (x ∷ ts) t h new =
    (h.0, IsOrdered-snoc R (seen ++ x ∷ []) ts t h.1 (λ s r. rw append_assoc (new s r)))

module _ (selected : List String) (edges : List WorkflowEdge) where
  -- `rest` are the targets whose counters are still to be decremented.
  pub record Inv (ordered queue rest : List String) (incoming : Dict String ℕ) : Type 0 where
    pub counts :
        (t : String) → get_or 0 t incoming ≡ pending selected ordered edges t + count t rest
    pub ready :
        (t : String)
        → elem t selected ≡ true
        → elem t (ordered ++ queue) ≡ nat_beq (get_or 0 t incoming) 0
    pub inside : (t : String) → elem t (ordered ++ queue) ≡ true → elem t selected ≡ true
    pub rest_inside : (t : String) → elem t rest ≡ true → elem t selected ≡ true
    pub distinct : IsDistinct (ordered ++ queue)
    pub before : IsOrdered (Precedes selected edges) [] ordered

  -- The counter of a target is positive before it is decremented.
  Inv-decrement :
      (ordered queue rest : List String) (t : String) (incoming : Dict String ℕ)
      → Inv ordered queue (t ∷ rest) incoming
      → Inv ordered
          (if nat_beq (get_or 0 t incoming - 1) 0 then queue ++ t ∷ [] else queue)
          rest
          (put t (get_or 0 t incoming - 1) incoming)
  unfolding count elem
  Inv-decrement ordered queue rest t incoming h =
      let left = get_or 0 t incoming - 1 in
      let chosen = h.rest_inside t (elem_head t rest) in
      let positive : 0 < get_or 0 t incoming =
        ground (arith, h.counts t, string_key.test_iff t t) in
      let absent : elem t (ordered ++ queue) ≡ false = ground (arith, h.ready t chosen, positive) in
      let now = λ (u : String). get_or-put 0 t u left incoming in
      record {
        counts = λ u. ground (arith, h.counts u, now u, positive, string_key.test_iff u t);
        ready = λ u m. ground (
          arith,
          h.ready u m,
          now u,
          positive,
          string_key.test_iff u t,
          elem-append u ordered (queue ++ t ∷ []),
          elem-append u queue (t ∷ []),
          elem-append u ordered queue,
        );
        inside = λ u m. ground (
          arith,
          h.inside u,
          chosen,
          m,
          string_key.test_iff u t,
          elem-append u ordered (queue ++ t ∷ []),
          elem-append u queue (t ∷ []),
          elem-append u ordered queue,
        );
        rest_inside = λ u m. h.rest_inside u (ground (arith, m));
        distinct = elim (Bool-cases (nat_beq left 0)) [
          | inl last ↦
              rw (last, ← append_assoc) (IsDistinct-snoc (ordered ++ queue) t h.distinct absent)
          | inr more ↦ rw more h.distinct
        ];
        before = h.before;
      }

  Inv-release :
      (rest ordered queue : List String) (incoming : Dict String ℕ)
      → Inv ordered queue rest incoming
      → Inv ordered (release incoming queue rest).1 [] (release incoming queue rest).0
  unfolding release
  Inv-release [] ordered queue incoming h = h
  Inv-release (t ∷ rest) ordered queue incoming h =
      Inv-release rest ordered
        (if nat_beq (get_or 0 t incoming - 1) 0 then queue ++ t ∷ [] else queue)
        (put t (get_or 0 t incoming - 1) incoming) (Inv-decrement ordered queue rest t incoming h)

  -- The head of the queue is ordered, and the targets of its edges come next.
  Inv-pop :
      (ordered queue : List String) (c : String) (incoming : Dict String ℕ)
      → Inv ordered (c ∷ queue) [] incoming
      → Inv (ordered ++ c ∷ []) queue (targets selected edges c) incoming
  unfolding count elem
  Inv-pop ordered queue c incoming h =
      let fresh = not_elem_of_IsDistinct ordered queue c h.distinct in
      let same : (ordered ++ c ∷ []) ++ queue ≡ ordered ++ c ∷ queue =
        append_assoc ordered (c ∷ []) queue in
      let member : elem c (ordered ++ c ∷ queue) ≡ true =
        ground (arith, elem-append c ordered (c ∷ queue), elem_head c queue) in
      let none_left : pending selected ordered edges c ≡ 0 =
        ground (arith, h.counts c, h.ready c (h.inside c member), member) in
      record {
        counts = λ t. omega (arith, h.counts t, pending-snoc selected ordered edges c t fresh);
        ready = λ t m. rw same (h.ready t m);
        inside = λ t m. h.inside t (rw (← same) m);
        rest_inside = λ t m. targets-elem selected edges c t m;
        distinct = rw same h.distinct;
        before =
            IsOrdered-snoc (Precedes selected edges) [] ordered c h.before
              (λ s p. ordered_of_no_pending selected ordered edges s c none_left p);
      }

  -- What the loop returns.
  pub record Result (r : List String) : Type 0 where
    pub ended :
        (t : String) → elem t selected ≡ true → elem t r ≡ nat_beq (pending selected r edges t) 0
    pub chosen : (t : String) → elem t r ≡ true → elem t selected ≡ true
    pub once : IsDistinct r
    pub in_order : IsOrdered (Precedes selected edges) [] r

  pub run_lem :
      (outgoing : Dict String (List String))
      → ((s : String) → get_or [] s outgoing ≡ targets selected edges s)
      → (fuel : ℕ) (incoming : Dict String ℕ) (ordered queue : List String)
      → length selected ≤ fuel + length ordered
      → Inv ordered queue [] incoming
      → (r : List String) × (run outgoing fuel incoming ordered queue ≡ some r) × Result r
  unfolding run count
  run_lem outgoing same fuel incoming ordered [] enough h = (
    ordered,
    refl,
    record {
      ended = λ t m. ground (arith, h.ready t m, h.counts t, append-nil ordered);
      chosen = λ t m. h.inside t (rw append-nil m);
      once = rw append-nil at h.distinct;
      in_order = h.before;
    },
  )
  run_lem outgoing same zero incoming ordered (c ∷ queue) enough h =
      let all_fit = length-le (ordered ++ c ∷ queue) selected h.distinct h.inside in
      absurd (omega (arith, length-append ordered (c ∷ queue), all_fit, enough))
  run_lem outgoing same (suc fuel) incoming ordered (c ∷ queue) enough h =
      let next = Inv-pop ordered queue c incoming h in
      let all : Inv (ordered ++ c ∷ []) queue (get_or [] c outgoing) incoming = rw (same c) next in
      let freed = Inv-release (get_or [] c outgoing) (ordered ++ c ∷ []) queue incoming all in
      run_lem outgoing same fuel _ (ordered ++ c ∷ []) _
        (omega (arith, length-append ordered (c ∷ []), enough)) freed
