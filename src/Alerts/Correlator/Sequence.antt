-- ===== src/Alerts/Correlator/Sequence.antt =====
-- The intrusion sequence: the greedy search finds the categories in order exactly if they occur in
-- order at all.
use sentinel_pi.Prelude.{
  String, ◌≡◌, ◌↔◌, subst, refl, some, List, [], ◌∷◌, map, string_key, eqb, arith, Bool-cases,
  Option-cases, inl, inr, eqb_refl,
}
use sentinel_pi.Alerts.Correlator.{CorrelationEvent, match_sequence}

-- Events of the categories occur in the list, in this order, others between them.
pub data OccursIn : List String → List CorrelationEvent → Type 0 where
  done : (es : List CorrelationEvent) → OccursIn [] es
  take :
      (e : CorrelationEvent) (cs : List String) (es : List CorrelationEvent)
      → OccursIn cs es
      → OccursIn (e.category ∷ cs) (e ∷ es)
  skip :
      (e : CorrelationEvent) (cs : List String) (es : List CorrelationEvent)
      → OccursIn cs es
      → OccursIn cs (e ∷ es)

-- The first category may be left out.
OccursIn-tail :
    (c : String) (cs : List String) (es : List CorrelationEvent)
    → OccursIn (c ∷ cs) es
    → OccursIn cs es
OccursIn-tail c cs es (take e _ es' o) = skip e cs es' o
OccursIn-tail c cs es (skip e _ es' o) = skip e cs es' (OccursIn-tail c cs es' o)

-- What is found is an occurrence.
pub match_sequence-OccursIn :
    (cs : List String) (es ms : List CorrelationEvent)
    → match_sequence cs es ≡ some ms
    → OccursIn cs es × (map (λ e. e.category) ms ≡ cs)
unfolding match_sequence
match_sequence-OccursIn [] es ms h = (done es, ground arith)
match_sequence-OccursIn (c ∷ cs) [] ms h = absurd cc
match_sequence-OccursIn (c ∷ cs) (e ∷ es) ms h = elim (Bool-cases (eqb e.category c)) [
  | inr differ ↦
      let (o, q) = match_sequence-OccursIn (c ∷ cs) es ms (ground arith) in
      (skip e (c ∷ cs) es o, q)
  | inl same ↦ elim (Option-cases (match_sequence cs es)) [
    | inl missing ↦ absurd (ground arith)
    | inr (rest, found) ↦
        let (o, q) = match_sequence-OccursIn cs es rest found in
        let hit : e.category ≡ c = ground arith in
        let whole : ms ≡ e ∷ rest = ground arith in
        (subst (λ d. OccursIn (d ∷ cs) (e ∷ es)) hit (take e cs es o), rw (whole, q, hit) refl)
  ]
]

-- An occurrence is found.
OccursIn-found :
    (cs : List String) (es : List CorrelationEvent)
    → OccursIn cs es
    → (ms : List CorrelationEvent) × (match_sequence cs es ≡ some ms)
unfolding match_sequence
OccursIn-found [] es o = ([], refl)
OccursIn-found (c ∷ cs) [] o = elim o [ ]
OccursIn-found (c ∷ cs) (e ∷ es) (take _ _ _ o) =
    let (ms, found) = OccursIn-found cs es o in (e ∷ ms, rw (eqb_refl e.category, found) refl)
OccursIn-found (c ∷ cs) (e ∷ es) (skip _ _ _ o) = elim (Bool-cases (eqb e.category c)) [
  | inr differ ↦ let (ms, found) = OccursIn-found (c ∷ cs) es o in (ms, rw (differ, found) refl)
  | inl same ↦
      let (ms, found) = OccursIn-found cs es (OccursIn-tail c cs es o) in
      (e ∷ ms, rw (same, found) refl)
]

-- The search finds a sequence exactly if events of its categories occur in this order.
pub match_sequence_iff :
    (cs : List String) (es : List CorrelationEvent)
    → ((ms : List CorrelationEvent) × (match_sequence cs es ≡ some ms)
        × (map (λ e. e.category) ms ≡ cs))
      ↔ OccursIn cs es
match_sequence_iff cs es = (
  (λ h. (match_sequence-OccursIn cs es h.0 h.1).0),
  λ o.
      let (ms, found) = OccursIn-found cs es o in
      (ms, found, (match_sequence-OccursIn cs es ms found).1),
)
