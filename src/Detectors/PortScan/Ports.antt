-- ===== src/Detectors/PortScan/Ports.antt =====
-- The ports that a pair probed within the window, each once.
use sentinel_pi.Prelude.{
  ℕ, suc, ◌+◌, ◌≤◌, String, ◌≡◌, ◌∙◌, refl, Bool, false, ◌&&◌, ◌||◌, none, some, List, [], ◌∷◌, ltb,
  ◌==◌, pair_key, nat_key, eqb, elem, IsDistinct, arith, Bool-cases, inl, inr, Option-cases,
}
use sentinel_pi.Prelude.Dict
use sentinel_pi.Models.{Datetime, seconds}
use sentinel_pi.Detectors.PortScan.{
  PortScan, scan_window, insert_port, port_set, recent_entries, entries_of,
}

-- An entry for the port is less than 60 seconds old.
abbrev pub is_probed : Datetime → ℕ → List (Datetime × ℕ) → Bool
is_probed now p [] = false
is_probed now p ((when, q) ∷ entries) =
    (p == q && ltb now (when + seconds 60)) || is_probed now p entries

-- The source probed the port of the destination in the last 60 seconds.
abbrev pub probed : String → String → Datetime → PortScan → ℕ → Bool
probed src dst now d p = elim (Dict.get (src, dst) d.scan_ports) [
  | none ↦ false
  | some entries ↦ is_probed now p entries
]

elem-insert_port : (a p : ℕ) (ps : List ℕ) → elem a (insert_port p ps) ≡ elem a (p ∷ ps)
unfolding insert_port
elem-insert_port a p [] = refl
elem-insert_port a p (q ∷ qs) = ground (arith, elem-insert_port a p qs)

elem-port_set : (a : ℕ) (ps : List ℕ) → elem a (port_set ps) ≡ elem a ps
unfolding port_set
elem-port_set a [] = refl
elem-port_set a (p ∷ ps) = ground (arith, elem-insert_port a p (port_set ps), elem-port_set a ps)

elem-recent_entries :
    (now : Datetime) (p : ℕ) (entries : List (Datetime × ℕ))
    → elem p (recent_entries now entries) ≡ is_probed now p entries
unfolding recent_entries
elem-recent_entries now p [] = refl
elem-recent_entries now p ((when, q) ∷ entries) =
    elim (Bool-cases (ltb now (when + seconds scan_window))) [
      | inl e ↦ rw e (ground (arith, e, elem-recent_entries now p entries))
      | inr e ↦ rw e (ground (arith, e, elem-recent_entries now p entries))
    ]

abbrev AscendsFrom : ℕ → List ℕ → Type 0
AscendsFrom low [] = Unit
AscendsFrom low (p ∷ ps) = (low ≤ p) × AscendsFrom (suc p) ps

insert_port-AscendsFrom :
    (low p : ℕ) (ps : List ℕ) → low ≤ p → AscendsFrom low ps → AscendsFrom low (insert_port p ps)
unfolding insert_port
insert_port-AscendsFrom low p [] le a = (le, tt)
insert_port-AscendsFrom low p (q ∷ qs) le a = elim (Bool-cases (eqb p q)) [
  | inl e ↦ rw (e, insert_port) a
  | inr e ↦ elim (Bool-cases (ltb p q)) [
    | inl f ↦ rw (e, f, insert_port) (le, (ground (arith, f), a.1))
    | inr f ↦
        rw (e, f, insert_port)
          (a.0, insert_port-AscendsFrom (suc q) p qs (ground (arith, e, f)) a.1)
  ]
]

port_set-AscendsFrom : (ps : List ℕ) → AscendsFrom 0 (port_set ps)
unfolding port_set
port_set-AscendsFrom [] = tt
port_set-AscendsFrom (p ∷ ps) =
    insert_port-AscendsFrom 0 p (port_set ps) (omega arith) (port_set-AscendsFrom ps)

elem-AscendsFrom : (low p : ℕ) (ps : List ℕ) → AscendsFrom low ps → suc p ≤ low → elem p ps ≡ false
elem-AscendsFrom low p [] a h = refl
elem-AscendsFrom low p (q ∷ qs) a h =
    ground (arith, h, a.0, elem-AscendsFrom (suc q) p qs a.1 (omega (arith, h, a.0)))

AscendsFrom-IsDistinct : (low : ℕ) (ps : List ℕ) → AscendsFrom low ps → IsDistinct ps
AscendsFrom-IsDistinct low [] a = tt
AscendsFrom-IsDistinct low (p ∷ ps) a =
    (elem-AscendsFrom (suc p) p ps a.1 (omega arith), AscendsFrom-IsDistinct (suc p) ps a.1)

pub port_set-IsDistinct : (ps : List ℕ) → IsDistinct (port_set ps)
port_set-IsDistinct ps = AscendsFrom-IsDistinct 0 (port_set ps) (port_set-AscendsFrom ps)

pub elem-recent_ports :
    (src dst : String) (now : Datetime) (d : PortScan) (p : ℕ)
    → elem p (port_set (recent_entries now (entries_of (src, dst) d.scan_ports)))
      ≡ probed src dst now d p
unfolding entries_of
elem-recent_ports src dst now d p = elim (Option-cases (Dict.get (src, dst) d.scan_ports)) [
  | inl e ↦ rw (e, entries_of, probed) (elem-port_set p _ ∙ elem-recent_entries now p [])
  | inr (entries, e) ↦
      rw (e, entries_of, probed) (elem-port_set p _ ∙ elem-recent_entries now p entries)
]
