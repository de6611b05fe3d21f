-- ===== src/ClientManager/Registry.antt =====
-- src/server/client_manager.cpp: the manager as a map from identifiers to connections.
use distributed_integration.Base.{
  ℕ, ◌+◌, ◌<◌, ◌≡◌, ◌≢◌, refl, ap, ◌∙◌, true, ◌&&◌, Option, none, some, List, [], ◌∷◌, ◌++◌, foldl,
  arith, ◌==◌, if◌then◌else◌, All, All-append, ◌↔◌, Bool-cases, Option-cases, inl, inr, sym,
}
use distributed_integration.Base.Words.{u32, u32-eq, u32_add, u32_idem}
use distributed_integration.ClientManager.{
  ClientConnection, cores_of, ClientManager, add_client, find_client, get_client, erase_client,
  remove_client, get_total_cpu_cores,
}

-- No connection of the list has the identifier.
abbrev pub Lacks : ℕ → List ClientConnection → Type 0
Lacks id = All (λ c. c.client_id ≢ id)

-- The identifiers are distinct.
abbrev pub IsDistinct : List ClientConnection → Type 0
IsDistinct [] = Unit
IsDistinct (c ∷ cs) = Lacks c.client_id cs × IsDistinct cs

-- Every identifier in use is distinct from the others and below `next`, the next one to be given.
pub record IsRegistry (next : ℕ) (m : ClientManager) : Type 0 where
  pub distinct : IsDistinct m.clients
  pub below : All (λ c. c.client_id < next) m.clients

All-below-Lacks :
    (next : ℕ) (cs : List ClientConnection) → All (λ c. c.client_id < next) cs → Lacks next cs
All-below-Lacks next [] h = tt
All-below-Lacks next (c ∷ cs) h = (omega arith, All-below-Lacks next cs h.1)

All-below-suc :
    (next : ℕ) (cs : List ClientConnection)
    → All (λ c. c.client_id < next) cs
    → All (λ c. c.client_id < next + 1) cs
All-below-suc next [] h = tt
All-below-suc next (c ∷ cs) h = (omega arith, All-below-suc next cs h.1)

IsDistinct-append :
    (cs : List ClientConnection) (c : ClientConnection)
    → IsDistinct cs
    → Lacks c.client_id cs
    → IsDistinct (cs ++ (c ∷ []))
IsDistinct-append [] c d l = (tt, tt)
IsDistinct-append (x ∷ xs) c d l = (
  All-append (λ e. e.client_id ≢ x.client_id) xs (c ∷ []) d.0 (λ e. l.0 (sym e), tt),
  IsDistinct-append xs c d.1 l.1,
)

-- Registering the connection with the next identifier keeps the registry, whether or not the
-- manager still accepts clients.
pub add_client-IsRegistry :
    (next : ℕ) (m : ClientManager) (c : ClientConnection)
    → IsRegistry next m
    → c.client_id ≡ next
    → IsRegistry (next + 1) (add_client c m).0
unfolding add_client
add_client-IsRegistry next m c r e = elim (Bool-cases m.accepting) [
  | inl open_now ↦ rw open_now (record {
    distinct =
        IsDistinct-append m.clients c r.distinct (rw e (All-below-Lacks next m.clients r.below));
    below =
        All-append (λ x. x.client_id < next + 1) m.clients (c ∷ [])
          (All-below-suc next m.clients r.below) (omega arith, tt);
  })
  | inr closed ↦
      rw closed (record { distinct = r.distinct; below = All-below-suc next m.clients r.below })
]

find_client-append :
    (k : ℕ) (cs : List ClientConnection) (c : ClientConnection)
    → find_client k (cs ++ (c ∷ [])) ≡ elim (find_client k cs) [
      | some x ↦ some x
      | none ↦ (if c.client_id == k then some c else none)
    ]
unfolding find_client
find_client-append k [] c = refl
find_client-append k (x ∷ xs) c = ground (arith, find_client-append k xs c)

find_client-Lacks : (k : ℕ) (cs : List ClientConnection) → Lacks k cs → find_client k cs ≡ none
unfolding find_client
find_client-Lacks k [] l = refl
find_client-Lacks k (c ∷ cs) l = ground (arith, find_client-Lacks k cs l.1)

-- In a registry, adding the connection with the next identifier returns that identifier and is an
-- update of the map, if the manager accepts clients; if not, it returns 0 and changes nothing. No
-- lookup but that of the new identifier changes.
pub get_client-add :
    (next : ℕ) (m : ClientManager) (c : ClientConnection)
    → IsRegistry next m
    → c.client_id ≡ next
    → ((add_client c m).1 ≡ (if m.accepting then next else 0))
      × ((k : ℕ)
          → get_client k (add_client c m).0
            ≡ (if m.accepting && next == k then some c else get_client k m))
unfolding add_client get_client
get_client-add next m c r e = elim (Bool-cases m.accepting) [
  | inl open_now ↦ rw open_now (
    e,
    λ k.
        find_client-append k m.clients c
        ∙ ground
            (arith, e, find_client-Lacks next m.clients (All-below-Lacks next m.clients r.below)),
  )
  | inr closed ↦ rw closed (refl, λ k. refl)
]

-- What is left when the connection with the identifier is erased.
abbrev IsErased : ℕ → List ClientConnection → Option (List ClientConnection) → Type 0
IsErased id cs none = find_client id cs ≡ none
IsErased id cs (some rest) =
    (find_client id cs ≢ none)
    × ((k : ℕ) → find_client k rest ≡ (if id == k then none else find_client k cs))
    × ((k : ℕ) → Lacks k cs → Lacks k rest)
    × IsDistinct rest

erase_client-IsErased :
    (id : ℕ) (cs : List ClientConnection) → IsDistinct cs → IsErased id cs (erase_client id cs)
unfolding erase_client find_client
erase_client-IsErased id [] d = refl
erase_client-IsErased id (c ∷ cs) d = elim (Bool-cases (c.client_id == id)) [
  | inl hit ↦
      let same : c.client_id ≡ id = ground arith in
      let gone = find_client-Lacks c.client_id cs d.0 in
      rw hit ((λ e. cc), (λ k. ground (arith, same, gone)), (λ k l. l.1), d.1)
  | inr miss ↦
      let ih = erase_client-IsErased id cs d.1 in
      elim (Option-cases (erase_client id cs)) [
        | inl e ↦
            let old : IsErased id cs none = rw e at ih in rw (miss, e) (ground (arith, miss, old))
        | inr (rest, e) ↦
            let old : IsErased id cs (some rest) = rw e at ih in
            rw (miss, e)
              (
                (λ n. old.0 (ground (arith, miss, n))),
                (λ k. ground (arith, miss, old.1 k)),
                (λ k l. (l.0, old.2 k l.1)),
                (old.2 c.client_id d.0, old.3),
              )
      ]
]

-- Removing a client of a registry deletes its identifier from the map and changes no other lookup;
-- the result says whether the identifier was there, and the identifiers stay distinct.
pub get_client-remove :
    (m : ClientManager) (id : ℕ)
    → IsDistinct m.clients
    → ((k : ℕ) → get_client k (remove_client id m).0 ≡ (if id == k then none else get_client k m))
      × (((remove_client id m).1 ≡ true) ↔ (get_client id m ≢ none))
      × IsDistinct (remove_client id m).0.clients
unfolding remove_client get_client
get_client-remove m id d =
    let erased = erase_client-IsErased id m.clients d in
    elim (Option-cases (erase_client id m.clients)) [
      | inl e ↦
          let old : IsErased id m.clients none = rw e at erased in
          rw (e, remove_client) ((λ k. ground (arith, old)), (ground (arith, old)), d)
      | inr (rest, e) ↦
          let old : IsErased id m.clients (some rest) = rw e at erased in
          rw (e, remove_client) (old.1, ((λ t. old.0), λ n. refl), old.3)
    ]

-- The cores of all clients, without wrapping around.
abbrev pub all_cores : List ClientConnection → ℕ
all_cores [] = 0
all_cores (c ∷ cs) = cores_of c + all_cores cs

total-foldl :
    (cs : List ClientConnection) (total : ℕ)
    → u32 total ≡ total
    → foldl (λ t c. u32 (t + cores_of c)) total cs ≡ u32 (total + all_cores cs)
total-foldl [] total e = let f : total + 0 ≡ total = omega arith in rw f (sym e)
total-foldl (c ∷ cs) total e =
    let f : total + (cores_of c + all_cores cs) ≡ total + cores_of c + all_cores cs = omega arith in
    total-foldl cs (u32 (total + cores_of c)) (u32_idem (total + cores_of c))
    ∙ u32_add (total + cores_of c) (all_cores cs)
    ∙ rw f

all_cores_snoc :
    (cs : List ClientConnection) (c : ClientConnection)
    → all_cores (cs ++ (c ∷ [])) ≡ all_cores cs + cores_of c
all_cores_snoc [] c = omega arith
all_cores_snoc (x ∷ xs) c = omega (arith, all_cores_snoc xs c)

total-eq : (m : ClientManager) → get_total_cpu_cores m ≡ u32 (all_cores m.clients)
unfolding get_total_cpu_cores
total-eq m =
    let none_yet : 0 + all_cores m.clients ≡ all_cores m.clients = omega arith in
    total-foldl m.clients 0 (u32-eq 0 (omega arith)) ∙ ap u32 none_yet

-- The total of the cores is their sum reduced to 32 bits. Registering a client adds its cores to
-- the total, in 32 bits, if the manager accepts clients, and leaves the total alone if not.
pub get_total_cpu_cores-add :
    (m : ClientManager) (c : ClientConnection)
    → (get_total_cpu_cores m ≡ u32 (all_cores m.clients))
      × (get_total_cpu_cores (add_client c m).0 ≡ (
          if m.accepting then u32 (get_total_cpu_cores m + cores_of c) else get_total_cpu_cores m))
unfolding add_client get_total_cpu_cores
get_total_cpu_cores-add m c = (
  total-eq m,
  elim (Bool-cases m.accepting) [
    | inl open_now ↦ rw open_now (
        total-eq (record m { clients = m.clients ++ (c ∷ []) })
        ∙ ap u32 (all_cores_snoc m.clients c)
        ∙ sym (u32_add (all_cores m.clients) (cores_of c))
        ∙ ap (λ t. u32 (t + cores_of c)) (sym (total-eq m)))
    | inr closed ↦ rw closed
  ],
)

-- An identifier may be given and not used.
pub skip-IsRegistry : (next : ℕ) (m : ClientManager) → IsRegistry next m → IsRegistry (next + 1) m
skip-IsRegistry next m r = record {
  distinct = r.distinct;
  below = All-below-suc next m.clients r.below;
}
