-- ===== src/Responders/Marking.antt =====
-- Marking the due actions as EXPIRING: which actions are marked, and that the rest stay as they are.
-- one another, so each action is still EXPIRING when its turn comes, and its row says so.
use sentinel_pi.Prelude.{
  ℕ, zero, suc, String, ◌≡◌, ◌≢◌, ◌∙◌, sym, subst, refl, some, List, [], ◌∷◌, length, length-set,
  get_elem?, get_elem?-set_ne, set, string_key, arith, All, Option-cases, if_intro, inl, inr,
}
use sentinel_pi.Prelude.Dict
use sentinel_pi.Prelude.Dict.{Dict, AllValues, AllValues-put, get-AllValues}
use sentinel_pi.Models.{Datetime}
use sentinel_pi.World.{Status, expiring, ResponderAction}
use sentinel_pi.Responders.{Responder}
use sentinel_pi.Responders.Ascends.{Ascends, Ascends-mono}
use sentinel_pi.Responders.Lifecycle.{by_name, due_actions, is_due, mark_expiring}
use sentinel_pi.Responders.Safety.{IsSafe}

abbrev pub refs_of : List (ℕ × Status) → List ℕ
refs_of [] = []
refs_of ((ref, _) ∷ due) = ref ∷ refs_of due

-- The object at a reference, if there is one, is marked EXPIRING.
abbrev pub IsMarked : List ResponderAction → ℕ → Type 0
IsMarked objects ref = (a : ResponderAction) → get_elem? objects ref ≡ some a → a.status ≡ expiring

pub IsMarked-set :
    (objects : List ResponderAction) (ref r : ℕ) (a : ResponderAction)
    → a.status ≡ expiring
    → IsMarked objects r
    → IsMarked (set objects ref a) r
IsMarked-set [] ref r a e h b p = h b p
IsMarked-set (o ∷ objects) zero zero a e h b p = ground arith
IsMarked-set (o ∷ objects) zero (suc r) a e h b p = h b p
IsMarked-set (o ∷ objects) (suc ref) zero a e h b p = h b p
IsMarked-set (o ∷ objects) (suc ref) (suc r) a e h b p = IsMarked-set objects ref r a e h b p

pub IsMarked-set_ne :
    (objects : List ResponderAction) (ref r : ℕ) (a : ResponderAction)
    → ref ≢ r
    → IsMarked objects r
    → IsMarked (set objects ref a) r
IsMarked-set_ne objects ref r a ne h b p = h b (sym (get_elem?-set_ne objects ref r a ne) ∙ p)

pub mark_expiring-keeps :
    (due : List (ℕ × Status)) (objects : List ResponderAction) (r : ℕ)
    → IsMarked objects r
    → IsMarked (mark_expiring due objects) r
unfolding mark_expiring
mark_expiring-keeps [] objects r h = h
mark_expiring-keeps ((ref, s) ∷ due) objects r h = elim (Option-cases (get_elem? objects ref)) [
  | inl missing ↦ rw (missing, mark_expiring) (mark_expiring-keeps due objects r h)
  | inr (a, at) ↦
      let marked = record a { status = expiring } in
      rw (at, mark_expiring)
        (mark_expiring-keeps due (set objects ref marked) r
          (IsMarked-set objects ref r marked refl h))
]

pub IsMarked-set_self :
    (objects : List ResponderAction) (ref : ℕ) (a : ResponderAction)
    → a.status ≡ expiring
    → IsMarked (set objects ref a) ref
IsMarked-set_self [] ref a h b p = cc
IsMarked-set_self (o ∷ objects) zero a h b p = ground arith
IsMarked-set_self (o ∷ objects) (suc ref) a h b p = IsMarked-set_self objects ref a h b p

abbrev pub AllMarked : List ResponderAction → List (ℕ × Status) → Type 0
AllMarked objects = All (λ (d : ℕ × Status). IsMarked objects d.0)

pub mark_expiring-AllMarked :
    (due : List (ℕ × Status)) (objects : List ResponderAction)
    → AllMarked (mark_expiring due objects) due
unfolding mark_expiring
mark_expiring-AllMarked [] objects = tt
mark_expiring-AllMarked ((ref, s) ∷ due) objects = elim (Option-cases (get_elem? objects ref)) [
  | inl missing ↦
      let step : mark_expiring due objects ≡ mark_expiring ((ref, s) ∷ due) objects =
        rw (missing, mark_expiring) in
      subst (λ o. AllMarked o ((ref, s) ∷ due)) step
        (
          mark_expiring-keeps due objects ref (λ b p. absurd (ground arith)),
          mark_expiring-AllMarked due objects,
        )
  | inr (a, at) ↦
      let marked = record a { status = expiring } in
      let objects' = set objects ref marked in
      let step : mark_expiring due objects' ≡ mark_expiring ((ref, s) ∷ due) objects =
        rw (at, mark_expiring) in
      subst (λ o. AllMarked o ((ref, s) ∷ due)) step
        (
          mark_expiring-keeps due objects' ref (IsMarked-set_self objects ref marked refl),
          mark_expiring-AllMarked due objects',
        )
]

pub AllMarked-set :
    (due : List (ℕ × Status)) (objects : List ResponderAction) (ref : ℕ) (a : ResponderAction)
    → All (λ (s : ℕ). ref ≢ s) (refs_of due)
    → AllMarked objects due
    → AllMarked (set objects ref a) due
AllMarked-set [] objects ref a ne h = tt
AllMarked-set ((r, s) ∷ due) objects ref a ne h =
    (IsMarked-set_ne objects ref r a ne.0 h.0, AllMarked-set due objects ref a ne.1 h.1)

pub due_actions-Ascends :
    (now : Datetime) (d : Dict String Responder) (objects : List ResponderAction) (lo : ℕ)
    (refs : List ℕ) (hi : ℕ)
    → Ascends lo refs hi
    → Ascends lo (refs_of (due_actions now d objects refs)) hi
unfolding due_actions
due_actions-Ascends now d objects lo [] hi h = h
due_actions-Ascends now d objects lo (ref ∷ refs) hi h =
    let tail = due_actions-Ascends now d objects (suc ref) refs hi h.1 in
    let lower = Ascends-mono (suc ref) lo _ hi hi (omega arith) (omega arith) tail in
    elim (Option-cases (get_elem? objects ref)) [
      | inl missing ↦ rw (missing, due_actions) lower
      | inr (a, at) ↦ elim (Option-cases (Dict.get a.responder d)) [
        | inl unknown ↦ rw (at, unknown, due_actions) lower
        | inr (r, known) ↦
            rw (at, known, due_actions)
              (if_intro (λ (l : List (ℕ × Status)). Ascends lo (refs_of l) hi) (is_due a now)
                (λ _. (h.0, tail)) (λ _. lower))
      ]
    ]

pub length-mark_expiring :
    (due : List (ℕ × Status)) (objects : List ResponderAction)
    → length (mark_expiring due objects) ≡ length objects
unfolding mark_expiring
length-mark_expiring [] objects = refl
length-mark_expiring ((ref, s) ∷ due) objects = elim (Option-cases (get_elem? objects ref)) [
  | inl missing ↦ rw (missing, mark_expiring) (length-mark_expiring due objects)
  | inr (a, at) ↦
      let marked = record a { status = expiring } in
      rw (at, mark_expiring)
        (length-mark_expiring due (set objects ref marked) ∙ length-set objects ref marked)
]

pub by_name-AllValues :
    (rs : List Responder) (d : Dict String Responder)
    → All IsSafe rs
    → AllValues IsSafe d
    → AllValues IsSafe (by_name rs d)
unfolding by_name
by_name-AllValues [] d h k = k
by_name-AllValues (r ∷ rs) d h k =
    by_name-AllValues rs (Dict.put r.name r d) h.1 (AllValues-put _ r.name r d h.0 k)
