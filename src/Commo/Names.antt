-- ===== src/Commo/Names.antt =====
-- The names of requests and the filters that bring them to a node (commo.cpp, the constructor of Commo,
-- `consume` and `onInterest`). `ndn::Name` and the matching of filters are the parameter `NameLibrary`.
use ndnpaxos.Prelude.{
  ℕ, zero, suc, ◌≡◌, ◌≢◌, Bool, true, false, List, [], ◌∷◌, get_elem?, ◌==◌, if◌then◌else◌, Outcome,
  ok, deref, ◌>>=◌,
}
use ndnpaxos.Types.{Mode, Bytes, Message}
use ndnpaxos.View.{View, host, nodes_size, whoami, if_master}
use ndnpaxos.Captain.State.{Captain}
use ndnpaxos.Commo.{Handler}
use ndnpaxos.Commo.Wire.{Codec, NameApi, encode, on_interest, on_interest_commit}

-- `Name(uri)`, `append` of a component, and whether a filter, which is a prefix, matches a name.
pub record NameLibrary (Name : Type 0) : Type 0 where
  pub parse : Bytes → Name
  pub append : Name → Bytes → Name
  pub matches : Name → Name → Bool

-- A name matches its prefixes and no other names.
pub record IsNameLibrary {Name : Type 0} (lib : NameLibrary Name) : Type 0 where
  pub extends : (p : Name) (c : Bytes) → lib.matches p (lib.append p c) ≡ true
  pub differs :
      (p : Name) (c d e : Bytes)
      → c ≢ d
      → lib.matches (lib.append p c) (lib.append (lib.append p d) e) ≡ false

-- `"commit"`
abbrev pub commit_component : Bytes
commit_component = b'c' ∷ b'o' ∷ b'm' ∷ b'm' ∷ b'i' ∷ b't' ∷ []

-- The filter that a node sets, with the function it binds: `onInterestCommit` or `onInterest`.
pub data Filter (Name : Type 0) : Type 0 where
  commits : Name → Filter Name
  messages : Name → Filter Name

abbrev pub filter_name : {Name : Type 0} → Filter Name → Name
filter_name (commits name) = name
filter_name (messages name) = name

-- `has_pool`: the pool of a cluster of one node.
pub record Commo (Name : Type 0) : Type 0 where
  pub consumer_names : List Name
  pub commit_name : Name
  pub filter : Filter Name
  pub has_pool : Bool

-- An interest, with its lifetime in milliseconds.
pub record Interest (Name : Type 0) : Type 0 where
  pub name : Name
  pub lifetime : ℕ
  pub must_be_fresh : Bool

abbrev pub consume : {Name : Type 0} → Name → Interest Name
consume name = record { name = name; lifetime = 500; must_be_fresh = true }

module _ {Name : Type 0} (lib : NameLibrary Name) where
  -- The loop of the constructor: `rounds` nodes from node `i` on.
  unfoldable pub names_from : View → ℕ → ℕ → Outcome (List Name)
  names_from v i zero = ok []
  names_from v i (suc rounds) = do
    info ← deref (host v i)
    rest ← names_from v (suc i) rounds
    ok (lib.append (lib.parse v.prefix) info.name ∷ rest)

  -- The master listens to its clients only, the other nodes to their own names.
  unfoldable pub new_commo : View → Outcome (Commo Name)
  unfolding names_from
  new_commo v = do
    names ← names_from v 0 (nodes_size v)
    let commit_name = lib.append (lib.parse v.prefix) commit_component
    filter ←
        if if_master v
        then ok (commits commit_name)
        else (deref (get_elem? names (whoami v)) >>= λ name. ok (messages name))
    ok (record {
      consumer_names = names;
      commit_name = commit_name;
      filter = filter;
      has_pool = nodes_size v == 1;
    })

  -- The interest by which a message goes to a node.
  unfoldable pub request : Codec → Commo Name → Message → ℕ → Outcome (Interest Name)
  request codec commo m node = do
    name ← deref (get_elem? commo.consumer_names node)
    ok (consume (lib.append name (encode codec m)))

  -- An interest that arrives: only one that the filter matches comes to the replica.
  unfoldable pub receive :
      Mode
      → Codec
      → NameApi Name
      → Bytes
      → Handler Name
      → Commo Name
      → Interest Name
      → Captain Name
      → Outcome (Captain Name)
  receive mode codec api fixed self commo interest c =
      if lib.matches (filter_name commo.filter) interest.name
      then elim commo.filter [
        | commits name ↦ on_interest_commit mode api fixed self interest.name c
        | messages name ↦ on_interest codec api self interest.name c
      ]
      else ok c
