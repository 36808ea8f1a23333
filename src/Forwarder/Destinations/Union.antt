-- ===== src/Forwarder/Destinations/Union.antt =====
-- The destinations that discovery yields (proxy/src/forwarder.rs): each once, and all of them.
use shredstream_proxy.Common.{
  ℕ, ◌≡◌, refl, inl, inr, true, false, not, ◌||◌, ◌&&◌, List, [], ◌∷◌, ◌++◌, map, Bool-cases, Key,
  key_eq, contains, contains-append, arith,
}
use shredstream_proxy.Forwarder.{SocketAddr}
use shredstream_proxy.Forwarder.Destinations.{unique_from, union_destinations}

abbrev pub IsUnique : List SocketAddr → Type 0
IsUnique [] = Unit
IsUnique (x ∷ xs) = (contains x xs ≡ false) × IsUnique xs

key_eq-contains : (a b : Key) (xs : List Key) → key_eq a b ≡ true → contains a xs ≡ contains b xs
key_eq-contains a b [] h = refl
key_eq-contains a b (x ∷ xs) h = ground (arith, key_eq-contains a b xs h)

contains-unique_from :
    (k : Key) (seen xs : List SocketAddr)
    → contains k (unique_from seen xs) ≡ (contains k xs && not (contains k seen))
unfolding unique_from
contains-unique_from k seen [] = refl
contains-unique_from k seen (x ∷ xs) = ground (
  arith,
  contains-unique_from k seen xs,
  contains-unique_from k (x ∷ seen) xs,
  key_eq-contains k x seen,
)

unique_from-IsUnique : (seen xs : List SocketAddr) → IsUnique (unique_from seen xs)
unfolding unique_from
unique_from-IsUnique seen [] = tt
unique_from-IsUnique seen (x ∷ xs) = elim (Bool-cases (contains x seen)) [
  | inl e ↦ rw e (unique_from-IsUnique seen xs)
  | inr e ↦
      rw e
        (ground (arith, contains-unique_from x (x ∷ seen) xs), unique_from-IsUnique (x ∷ seen) xs)
]

-- The destinations hold each socket address once, and exactly the discovered ones at the port and the
-- static ones.
pub union_destinations_lem :
    (port : ℕ) (ips : List ℕ) (static : List SocketAddr)
    → IsUnique (union_destinations port ips static)
      × ((k : SocketAddr)
          → contains k (union_destinations port ips static)
            ≡ (contains k (map (λ ip. (ip, port)) ips) || contains k static))
unfolding union_destinations
union_destinations_lem port ips static = (
  unique_from-IsUnique [] _,
  λ k. ground (
    arith,
    contains-unique_from k [] (map (λ ip. (ip, port)) ips ++ static),
    contains-append k (map (λ ip. (ip, port)) ips) static,
  ),
)
