-- ===== src/Commo/Routing.antt =====
-- Where a request goes (commo.cpp): which node's filter brings it to that node's replica.
use ndnpaxos.Prelude.{
  ℕ, ◌<◌, ◌≡◌, ◌≢◌, refl, sym, ◌∙◌, ap, true, false, some, length, get_elem?, get_elem?-lt, arith,
  ◌==◌, if◌then◌else◌, ok, inl, inr, Bool-cases, some-injective, not, ◌&&◌,
}
use ndnpaxos.Types.{Mode, Bytes, Message, msg_type}
use ndnpaxos.View.{HostInfo, Config, load, host, if_master}
use ndnpaxos.Captain.State.{Captain, named}
use ndnpaxos.Commo.{Handler}
use ndnpaxos.Commo.Wire.{Codec, NameApi, encode}
use ndnpaxos.Commo.Names.{
  NameLibrary, IsNameLibrary, commit_component, commits, messages, Commo, Interest, consume,
  new_commo, request, receive,
}
use ndnpaxos.Commo.Making.{name_of, Made, new_commo_lem, receive_other, receive_own, request_lem}

load-host :
    (mode : Mode) (config : Config) (i : ℕ) (node : ℕ)
    → host (load mode node config) i ≡ get_elem? config.host i
unfolding load
load-host mode config i node = refl

load-fields :
    (mode : Mode) (config : Config) (node : ℕ)
    → node < length config.host
    → ((load mode node config).prefix ≡ config.prefix)
      × ((load mode node config).size ≡ length config.host)
      × ((load mode node config).node_id ≡ node)
unfolding load
load-fields mode config node low = (refl, refl, ground arith)

-- The hosts of a configuration file have names of their own, and none is called `commit`.
pub record IsNamed (config : Config) : Type 0 where
  pub unique :
      (a b : ℕ) (h g : HostInfo)
      → get_elem? config.host a ≡ some h
      → get_elem? config.host b ≡ some g
      → h.name ≡ g.name
      → a ≡ b
  pub free : (a : ℕ) (h : HostInfo) → get_elem? config.host a ≡ some h → commit_component ≢ h.name

module _ {Name : Type 0} (lib : NameLibrary Name) (mode : Mode) (config : Config) where
  loaded-Made :
      (node : ℕ)
      → node < length config.host
      → (h : HostInfo) × (get_elem? config.host node ≡ some h)
        × ((commo : Commo Name) × Made lib (load mode node config) h commo)
  loaded-Made node low =
      let v = load mode node config in
      let (same_prefix, size, id) = load-fields mode config node low in
      let (h, e) = get_elem?-lt config.host node low in
      (
        h,
        e,
        new_commo_lem lib v h
            (λ j small.
              let (g, eg) = get_elem?-lt config.host j (omega (arith, size)) in
              (g, load-host mode config j node ∙ eg))
            (omega (arith, size, id))
            (load-host mode config v.node_id node ∙ (ap (λ n. get_elem? config.host n) id ∙ e)),
      )

  module _ (codec : Codec) (api : NameApi Name) (fixed : Bytes) (self : Handler Name) (m : Message)
      (c : Captain Name) (laws : IsNameLibrary lib) (names : IsNamed config)
      (back : codec.parse (msg_type m) (codec.serialize m) ≡ m)
      (last : (p : Name) (last : Bytes) → api.value_at (lib.append p last) 1 ≡ last) (i j : ℕ)
      (f g : HostInfo) (ef : get_elem? config.host j ≡ some f)
      (eg : get_elem? config.host i ≡ some g) (receiver : Commo Name)
      (there : Made lib (load mode j config) f receiver) where
    abbrev path : Name
    path = lib.append (lib.append (lib.parse (load mode j config).prefix) g.name) (encode codec m)

    at_master :
        if_master (load mode j config) ≡ true
        → receive lib mode codec api fixed self receiver (consume path) c ≡ ok c
    at_master master =
        let v = load mode j config in
        receive_other lib mode codec api fixed self receiver (lib.parse v.prefix) g.name m c laws
          (commits (lib.append (lib.parse v.prefix) commit_component)) commit_component
          (rw master at there.listens) refl (names.free i g eg)

    at_other :
        if_master (load mode j config) ≡ false
        → i ≢ j
        → receive lib mode codec api fixed self receiver (consume path) c ≡ ok c
    at_other slave ne =
        let v = load mode j config in
        receive_other lib mode codec api fixed self receiver (lib.parse v.prefix) g.name m c laws
          (messages (name_of lib v f)) f.name (rw slave at there.listens) refl
          (λ e. ne (sym (names.unique j i f g ef eg e)))

    at_target :
        if_master (load mode j config) ≡ false
        → i ≡ j
        → receive lib mode codec api fixed self receiver (consume path) c ≡ self m (named path) c
    at_target slave e =
        let v = load mode j config in
        let same : f ≡ g =
          some-injective (sym ef ∙ (ap (λ n. get_elem? config.host n) (sym e) ∙ eg)) in
        receive_own lib mode codec api fixed self receiver (lib.parse v.prefix) g.name m c laws
          ((rw slave at there.listens) ∙ ap (λ x. messages (name_of lib v x)) same) back
          (last (lib.append (lib.parse v.prefix) g.name) (encode codec m))

    anywhere :
        receive lib mode codec api fixed self receiver (consume path) c
        ≡ (if (i == j) && not (if_master (load mode j config)) then self m (named path) c else ok c)
    anywhere = elim (Bool-cases (if_master (load mode j config))) [
      | inl master ↦ elim (Bool-cases (i == j)) [
        | inl e ↦ rw (e, master) (at_master master)
        | inr ne ↦ rw ne (at_master master)
      ]
      | inr slave ↦ elim (Bool-cases (i == j)) [
        | inl e ↦ rw (e, slave) (at_target slave (ground arith))
        | inr ne ↦ rw ne (at_other slave (ground arith))
      ]
    ]

  -- The request of one node to another (or to itself) reaches the replica of a node just if that node is
  -- the one it is for and is not the master, and there it is handled as the message that was sent; at
  -- every other node, and at the master whoever it is for, nothing happens. The nodes are those of a
  -- configuration file whose hosts have names of their own, none of which is `commit`.
  pub request_received :
      (codec : Codec) (api : NameApi Name) (fixed : Bytes) (self : Handler Name) (m : Message)
      (s i j : ℕ) (c : Captain Name)
      → IsNameLibrary lib
      → IsNamed config
      → s < length config.host
      → i < length config.host
      → j < length config.host
      → codec.parse (msg_type m) (codec.serialize m) ≡ m
      → ((p : Name) (last : Bytes) → api.value_at (lib.append p last) 1 ≡ last)
      → (sender receiver : Commo Name) × (q : Interest Name) × (new_commo lib (load mode s config)
          ≡ ok sender)
        × (new_commo lib (load mode j config) ≡ ok receiver)
        × (request lib codec sender m i ≡ ok q)
        × (receive lib mode codec api fixed self receiver q c ≡ (
            if (i == j) && not (if_master (load mode j config))
            then self m (named q.name) c
            else ok c))
  unfolding load
  request_received codec api fixed self m s i j c laws names ls li lj back last =
      let (h, eh, (sender, made)) = loaded-Made s ls in
      let (f, ef, (receiver, there)) = loaded-Made j lj in
      let (g, eg) = get_elem?-lt config.host i li in
      (
        sender,
        receiver,
        consume (lib.append (lib.append (lib.parse config.prefix) g.name) (encode codec m)),
        made.makes,
        there.makes,
        request_lem lib codec (load mode s config) h g sender m i made li eg,
        anywhere codec api fixed self m c laws names back last i j f g ef eg receiver there,
      )
