-- ===== src/Gateways/Ports.antt =====
-- `allocateNodePortToClient` of controllers/slicegateway/utils.go, with `containsWithIndex`.
use worker_operator.Base.{
  ℕ, ◌-◌, ◌≤◌, ◌<◌, String, none, some, List, [], ◌∷◌, Result, ok, err, other, ◌≡◌, ◌==◌, string_eq,
  nat_eq, if◌then◌else◌, Dict, lookup, count, remove_one, arith, Option-cases, inl, inr,
}

-- The loop over the map: the first entry with a port that is in use goes. The map's order is the
-- list's, any order being possible.
unfoldable pub remove_used : List ℕ → Dict String ℕ → List ℕ
unfolding remove_one
remove_used ports [] = ports
remove_used ports ((k, v) ∷ node_ports) = remove_used (remove_one v ports) node_ports

unfoldable pub allocate_node_port_to_client : List ℕ → String → Dict String ℕ → Result ℕ
unfolding remove_used
allocate_node_port_to_client ports dep_name node_ports = elim (remove_used ports node_ports) [
  | port ∷ rest ↦ ok port
  | [] ↦ elim (lookup dep_name node_ports) [ some port ↦ ok port | none ↦ err other ]
]

-- The ports in use.
abbrev pub ports_of : Dict String ℕ → List ℕ
ports_of [] = []
ports_of ((k, v) ∷ node_ports) = v ∷ ports_of node_ports

count-remove_one_any :
    (x v : ℕ) (ys : List ℕ)
    → count v (remove_one x ys) ≡ (if x == v then count v ys - 1 else count v ys)
unfolding count remove_one
count-remove_one_any x v [] = ground arith
count-remove_one_any x v (y ∷ ys) = ground (arith, count-remove_one_any x v ys)

count-remove_used :
    (ports : List ℕ) (node_ports : Dict String ℕ) (p : ℕ)
    → count p (remove_used ports node_ports) ≡ count p ports - count p (ports_of node_ports)
unfolding remove_used count
count-remove_used ports [] p = omega arith
count-remove_used ports ((k, v) ∷ node_ports) p =
    ground
      (arith, count-remove_used (remove_one v ports) node_ports p, count-remove_one_any v p ports)

-- What an allocation may give.
pub data Allocated (ports : List ℕ) (dep_name : String) (node_ports : Dict String ℕ)
    : Result ℕ → Type 0 where
  unused :
      (p : ℕ)
      → 0 < count p ports
      → count p (ports_of node_ports) ≡ 0
      → Allocated ports dep_name node_ports (ok p)
  kept :
      (p : ℕ)
      → lookup dep_name node_ports ≡ some p
      → ((q : ℕ) → count q ports ≤ count q (ports_of node_ports))
      → Allocated ports dep_name node_ports (ok p)
  exhausted :
      lookup dep_name node_ports ≡ none
      → ((q : ℕ) → count q ports ≤ count q (ports_of node_ports))
      → Allocated ports dep_name node_ports (err other)

-- Of distinct node ports of the server, a client deployment is given one that no deployment
-- has; only where each of the ports is in use, it is given the port that it has already, or an
-- error if it has none.
pub allocate_node_port_to_client-Allocated :
    (ports : List ℕ) (dep_name : String) (node_ports : Dict String ℕ)
    → ((p : ℕ) → count p ports ≤ 1)
    → Allocated ports dep_name node_ports (allocate_node_port_to_client ports dep_name node_ports)
unfolding allocate_node_port_to_client count
allocate_node_port_to_client-Allocated ports dep_name node_ports distinct =
    by_rest (remove_used ports node_ports) (count-remove_used ports node_ports)
  where
    full :
        ((q : ℕ) → count q [] ≡ count q ports - count q (ports_of node_ports))
        → (q : ℕ) → count q ports ≤ count q (ports_of node_ports)
    full c q = omega (arith, c q)

    by_rest :
        (rest : List ℕ)
        → ((p : ℕ) → count p rest ≡ count p ports - count p (ports_of node_ports))
        → Allocated ports dep_name node_ports (elim rest as (λ _. Result ℕ) [
          | port ∷ more ↦ ok port
          | [] ↦ elim (lookup dep_name node_ports) [ some port ↦ ok port | none ↦ err other ]
        ])
    by_rest (p ∷ rest) c = unused p (ground (arith, c p)) (ground (arith, c p, distinct p))
    by_rest [] c = elim (Option-cases (lookup dep_name node_ports)) [
      | inl e ↦ rw e (exhausted e (full c))
      | inr (p, e) ↦ rw e (kept p e (full c))
    ]
