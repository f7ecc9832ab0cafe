-- ===== src/Commo/Making.antt =====
-- What the constructor of Commo (commo.cpp) makes, and what its requests are.
use ndnpaxos.Prelude.{
  ℕ, zero, suc, ◌+◌, ◌<◌, ◌≡◌, ◌≢◌, refl, sym, ◌∙◌, ap, subst, List, [], ◌∷◌, some, get_elem?,
  arith, ◌==◌, if◌then◌else◌, ok, inl, inr, Bool-cases, some-injective,
}
use ndnpaxos.Types.{Mode, Bytes, Message, msg_type}
use ndnpaxos.View.{HostInfo, View, host, if_master}
use ndnpaxos.Captain.State.{Captain, named}
use ndnpaxos.Commo.{Handler}
use ndnpaxos.Commo.Wire.{Codec, NameApi, encode, on_interest, deal_msg-encode}
use ndnpaxos.Commo.Names.{
  NameLibrary, IsNameLibrary, commit_component, Filter, commits, messages, filter_name, Commo,
  consume, names_from, new_commo, request, receive,
}

module _ {Name : Type 0} (lib : NameLibrary Name) where
  -- The name of a node.
  abbrev pub name_of : View → HostInfo → Name
  name_of v info = lib.append (lib.parse v.prefix) info.name

  names_from_lem :
      (v : View) (i rounds : ℕ)
      → ((j : ℕ) → j < i + rounds → (h : HostInfo) × (host v j ≡ some h))
      → (names : List Name) × (names_from lib v i rounds ≡ ok names)
        × ((j : ℕ) (h : HostInfo)
            → j < rounds
            → host v (i + j) ≡ some h
            → get_elem? names j ≡ some (name_of v h))
  unfolding names_from
  names_from_lem v i zero hosts = ([], refl, λ j h low e. absurd (omega arith))
  names_from_lem v i (suc rounds) hosts =
      let (h, e) = hosts i (omega arith) in
      let (names, en, at) = names_from_lem v (suc i) rounds (λ j low. hosts j (omega arith)) in
      (name_of v h ∷ names, rw (e, en) refl, go h e names at)
    where
      go :
          (h : HostInfo)
          → host v i ≡ some h
          → (names : List Name)
          → ((j : ℕ) (g : HostInfo)
              → j < rounds
              → host v (suc i + j) ≡ some g
              → get_elem? names j ≡ some (name_of v g))
          → (j : ℕ) (g : HostInfo) → j < suc rounds
          → host v (i + j) ≡ some g
          → get_elem? (name_of v h ∷ names) j ≡ some (name_of v g)
      go h e names at zero g low eg =
          let same : i + 0 ≡ i = omega arith in
          ap (λ x. some (name_of v x))
            (some-injective (sym e ∙ subst (λ n. host v n ≡ some g) same eg))
      go h e names at (suc j) g low eg =
          let same : i + suc j ≡ suc i + j = omega arith in
          at j g (omega arith) (subst (λ n. host v n ≡ some g) same eg)

  -- What the constructor makes of a view whose nodes all have hosts.
  pub record Made (v : View) (h : HostInfo) (commo : Commo Name) : Type 0 where
    pub makes : new_commo lib v ≡ ok commo
    pub named_as :
        (j : ℕ) (g : HostInfo)
        → j < v.size
        → host v j ≡ some g
        → get_elem? commo.consumer_names j ≡ some (name_of v g)
    pub listens : commo.filter ≡ (
        if if_master v
        then commits (lib.append (lib.parse v.prefix) commit_component)
        else messages (name_of v h))

  pub new_commo_lem :
      (v : View) (h : HostInfo)
      → ((j : ℕ) → j < v.size → (h : HostInfo) × (host v j ≡ some h))
      → v.node_id < v.size
      → host v v.node_id ≡ some h
      → (commo : Commo Name) × Made v h commo
  unfolding new_commo
  new_commo_lem v h hosts small e =
      let (names, en, at) = names_from_lem v 0 v.size (λ j low. hosts j (omega arith)) in
      let own = named_at names at v.node_id h small e in
      (
        record {
          consumer_names = names;
          commit_name = lib.append (lib.parse v.prefix) commit_component;
          filter =
              if if_master v
              then commits (lib.append (lib.parse v.prefix) commit_component)
              else messages (name_of v h);
          has_pool = v.size == 1;
        },
        record {
          makes = elim (Bool-cases (if_master v)) [
            | inl master ↦ rw (en, master) refl
            | inr other ↦ rw (en, other, own) refl
          ];
          named_as = named_at names at;
          listens = refl;
        },
      )
    where
      named_at :
          (names : List Name)
          → ((j : ℕ) (g : HostInfo)
              → j < v.size
              → host v (0 + j) ≡ some g
              → get_elem? names j ≡ some (name_of v g))
          → (j : ℕ) (g : HostInfo) → j < v.size
          → host v j ≡ some g
          → get_elem? names j ≡ some (name_of v g)
      named_at names at j g low eg =
          let start : j ≡ 0 + j = omega arith in
          at j g low (subst (λ n. host v n ≡ some g) start eg)

  module _ (mode : Mode) (codec : Codec) (api : NameApi Name) (fixed : Bytes) (self : Handler Name)
      (commo : Commo Name) (p : Name) (to : Bytes) (m : Message) (c : Captain Name)
      (laws : IsNameLibrary lib) where
    abbrev name : Name
    name = lib.append (lib.append p to) (encode codec m)

    -- The filter of another name, and that of this one.
    pub receive_other :
        (f : Filter Name) (own : Bytes)
        → commo.filter ≡ f
        → filter_name f ≡ lib.append p own
        → own ≢ to
        → receive lib mode codec api fixed self commo (consume name) c ≡ ok c
    unfolding receive
    receive_other f own listens at differ =
        rw (listens, at, laws.differs p own to (encode codec m) differ) refl

    pub receive_own :
        commo.filter ≡ messages (lib.append p to)
        → codec.parse (msg_type m) (codec.serialize m) ≡ m
        → api.value_at name 1 ≡ encode codec m
        → receive lib mode codec api fixed self commo (consume name) c ≡ self m (named name) c
    unfolding receive on_interest
    receive_own listens back last =
        rw (listens, laws.extends (lib.append p to) (encode codec m), last)
          (deal_msg-encode codec self m (named name) c back)

  pub request_lem :
      (codec : Codec) (v : View) (h g : HostInfo) (commo : Commo Name) (m : Message) (i : ℕ)
      → Made v h commo
      → i < v.size
      → host v i ≡ some g
      → request lib codec commo m i
        ≡ ok (consume (lib.append (lib.append (lib.parse v.prefix) g.name) (encode codec m)))
  unfolding request
  request_lem codec v h g commo m i made low e = rw (made.named_as i g low e) refl
