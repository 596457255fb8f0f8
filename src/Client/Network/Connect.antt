-- ===== src/Client/Network/Connect.antt =====
-- How the client's network comes up: `Network::new` with `initialize_connections`.
use mathlib.Core.Option
use id2203_project.Base.{
  ℕ, suc, ◌+◌, ◌<◌, ◌≤◌, max, id_key, String, ◌≡◌, refl, sym, ap, subst, ◌∙◌, ◌||◌, Option, none,
  some, List, [], ◌∷◌, map, arith, length, set, replicate, contains, wrapping_add, word_mod, All,
  get_elem?-set, get_elem?-total, get_elem?-replicate, length-set, length-replicate,
}
use id2203_project.Client.Network.{
  Network, ServerConnection, Attempt, connection_on, set_slot, is_connected, open_first, open_all,
  fill, initialize_connections, max_id, new,
}

-- The name of a server resolves, and the connection to its first address opens.
pub record Opens (a : Attempt) (server : ℕ × String) : Type 0 where
  pub address : String
  pub others : List String
  pub stream : ℕ
  pub resolves : a.to_socket_addrs server.1 ≡ some (address ∷ others)
  pub connects : a.connect server.0 address ≡ some stream

abbrev pub ids : {A : Type 0} → List (ℕ × A) → List ℕ
ids ps = map (λ p. p.0) ps

open_all-total :
    (a : Attempt) (servers : List (ℕ × String))
    → All (Opens a) servers
    → (opened : List (ℕ × ℕ)) × (open_all a servers ≡ some opened) × (ids opened ≡ ids servers)
unfolding open_all open_first
open_all-total a [] h = ([], refl, refl)
open_all-total a (server ∷ servers) h =
    let (opened, e, same) = open_all-total a servers h.1 in
    (
      (server.0, h.0.stream) ∷ opened,
      rw (h.0.resolves, open_all, open_first) (rw (h.0.connects) (rw e refl)),
      ap (λ xs. server.0 ∷ xs) same,
    )

max_id-bounds :
    (server : ℕ × String) (servers : List (ℕ × String))
    → All (λ s. s.0 + 1 < word_mod) (server ∷ servers)
    → (m : ℕ) × (max_id (server ∷ servers) ≡ some m)
      × All (λ s. s.0 ≤ m) (server ∷ servers)
      × (m + 1 < word_mod)
unfolding max_id
max_id-bounds server [] h = (server.0, refl, (omega arith, tt), h.0)
max_id-bounds server (next ∷ servers) h =
    let (m, e, all_le, lt) = max_id-bounds next servers h.1 in
    (
      max server.0 m,
      rw e refl,
      (omega arith, weaken (next ∷ servers) m (max server.0 m) (omega arith) all_le),
      omega (arith, h.0, lt),
    )
  where
    weaken :
        (ss : List (ℕ × String)) (m k : ℕ) → m ≤ k → All (λ s. s.0 ≤ m) ss → All (λ s. s.0 ≤ k) ss
    weaken [] m k le h = tt
    weaken (s ∷ ss) m k le h = (omega (arith, h.0), weaken ss m k le h.1)

fill_lem :
    (n : Network) (opened : List (ℕ × ℕ))
    → All (λ i. i < length n.server_connections) (ids opened)
    → (n' : Network) × (fill n opened ≡ some n')
      × ((j : ℕ) → is_connected n' j ≡ (contains j (ids opened) || is_connected n j))
      × (n'.servers ≡ n.servers)
unfolding fill set_slot is_connected
fill_lem n [] h = (n, refl, λ j. refl, refl)
fill_lem n ((i, stream) ∷ opened) h =
    let v = some (connection_on stream) in
    let n1 = record n { server_connections = set n.server_connections i v } in
    let same = length-set n.server_connections i v in
    let (old, e) = get_elem?-total n.server_connections i h.0 in
    let (n', e', connected, servers) =
      fill_lem n1 opened (subst (λ l. All (λ i. i < l) (ids opened)) (sym same) h.1) in
    (
      n',
      rw (e, fill, set_slot) e',
      λ j. connected j ∙ ground (arith, get_elem?-set n.server_connections i j v h.0),
      servers,
    )

below :
    (ss : List (ℕ × String)) (m : ℕ)
    → All (λ s. s.0 ≤ m) ss
    → All (λ i. i < length (replicate {A = Option ServerConnection} (suc m) none)) (ids ss)
below [] m h = tt
below (s ∷ ss) m h =
    (omega (arith, h.0, length-replicate {A = Option ServerConnection} m none), below ss m h.1)

-- When every server's name resolves and its connection opens, and no id is the largest number, new
-- does not panic: the client is connected to exactly the servers of the list.
pub new_lem :
    (server : ℕ × String) (servers : List (ℕ × String)) (batch_size : ℕ) (a : Attempt)
    → All (λ s. s.0 + 1 < word_mod) (server ∷ servers)
    → All (Opens a) (server ∷ servers)
    → (n : Network) × (new (server ∷ servers) batch_size a ≡ some n)
      × ((j : ℕ) → is_connected n j ≡ contains j (ids (server ∷ servers)))
      × (n.servers ≡ server ∷ servers)
unfolding new initialize_connections is_connected Option.bind
new_lem server servers batch_size a fits opens =
    let (m, largest, all_le, lt) = max_id-bounds server servers fits in
    let (opened, e, same) = open_all-total a (server ∷ servers) opens in
    let slots : wrapping_add m 1 ≡ suc m = omega arith in
    let start : Network = record {
      server_connections = replicate (suc m) none;
      batch_size = batch_size;
      servers = server ∷ servers;
      aborted = [];
    } in
    let in_range : All (λ i. i < length start.server_connections) (ids opened) =
      subst (λ xs. All (λ i. i < length start.server_connections) xs) (sym same)
        (below (server ∷ servers) m all_le) in
    let (n, filled, connected, kept) = fill_lem start opened in_range in
    (
      n,
      rw (largest, new) (rw slots (rw (e, initialize_connections) filled)),
      λ j.
          connected j
          ∙ ground (
            arith,
            get_elem?-replicate {A = Option ServerConnection} (suc m) j none,
            ap (contains j) same,
          ),
      kept,
    )
