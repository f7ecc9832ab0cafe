-- ===== src/Examples/Routing.antt =====
-- Names as lists of components, and a request in a cluster of three nodes.
use ndnpaxos.Prelude.{
  ℕ, zero, suc, ◌+◌, ◌∙◌, ◌≡◌, ◌≢◌, refl, sym, ap, ap₂, inl, inr, Bool-cases, Bool, true, false,
  ◌&&◌, not, List, [], ◌∷◌, ◌++◌, some, none, get_elem?, split_last, split_last-append, arith, ◌==◌,
  ok, if◌then◌else◌, fault,
}
use ndnpaxos.Types.{Mode, Bytes}
use ndnpaxos.View.{HostInfo, load, if_master}
use ndnpaxos.Commo.Wire.{NameApi}
use ndnpaxos.Commo.Names.{NameLibrary, IsNameLibrary, Commo, Interest, new_commo, request, receive}
use ndnpaxos.Commo.Routing.{IsNamed, request_received}
use ndnpaxos.Captain.State.{Captain, new_captain, named}
use ndnpaxos.Commo.{Handler}
use ndnpaxos.Examples.Data.{three_hosts, node}
use ndnpaxos.Examples.Traffic.{one_message, some_prepare}

abbrev forget : Handler (List Bytes)
forget m name c = ok (record c { commit_ok = true })

abbrev at_rest : Captain (List Bytes)
at_rest = new_captain Mode.basic (node 1) 1 []

same_bytes : Bytes → Bytes → Bool
same_bytes [] [] = true
same_bytes (x ∷ xs) (y ∷ ys) = (x == y) && same_bytes xs ys
same_bytes _ _ = false

is_prefix : List Bytes → List Bytes → Bool
is_prefix [] n = true
is_prefix (c ∷ p) [] = false
is_prefix (c ∷ p) (d ∷ n) = same_bytes c d && is_prefix p n

abbrev components : NameLibrary (List Bytes)
components = record { parse = λ uri. uri ∷ []; append = λ p c. p ++ c ∷ []; matches = is_prefix }

abbrev component_api : NameApi (List Bytes)
component_api = record {
  value_at = λ n i. elim (split_last n) [ none ↦ [] | some (front, last) ↦ last ];
  uri_at = λ n i. [];
  number_at = λ n i. fault;
}

same_bytes_refl : (c : Bytes) → same_bytes c c ≡ true
unfolding same_bytes
same_bytes_refl [] = refl
same_bytes_refl (x ∷ c) = ground (arith, same_bytes_refl c)

same_bytes_ne : (c d : Bytes) → c ≢ d → same_bytes c d ≡ false
unfolding same_bytes
same_bytes_ne [] [] ne = absurd (ne refl)
same_bytes_ne [] (y ∷ d) ne = refl
same_bytes_ne (x ∷ c) [] ne = refl
same_bytes_ne (x ∷ c) (y ∷ d) ne = elim (Bool-cases (x == y)) [
  | inr other ↦ rw other refl
  | inl same ↦
      rw same
        (same_bytes_ne c d (λ e. let here : x ≡ y = ground arith in ne (ap₂ (λ a b. a ∷ b) here e)))
]

is_prefix_extends : (p : List Bytes) (c : Bytes) → is_prefix p (p ++ c ∷ []) ≡ true
unfolding is_prefix
is_prefix_extends [] c = refl
is_prefix_extends (d ∷ p) c = rw (same_bytes_refl d) (is_prefix_extends p c)

is_prefix_differs :
    (p : List Bytes) (c d e : Bytes)
    → c ≢ d
    → is_prefix (p ++ c ∷ []) ((p ++ d ∷ []) ++ e ∷ []) ≡ false
unfolding is_prefix
is_prefix_differs [] c d e ne = rw (same_bytes_ne c d ne) refl
is_prefix_differs (x ∷ p) c d e ne = rw (same_bytes_refl x) (is_prefix_differs p c d e ne)

components-IsNameLibrary : IsNameLibrary components
components-IsNameLibrary = record { extends = is_prefix_extends; differs = is_prefix_differs }

-- The hosts are n0, n1 and n2.
three_hosts_named :
    (a : ℕ) (h : HostInfo) → get_elem? three_hosts.host a ≡ some h → h.name ≡ b'n' ∷ (b'0' + a) ∷ []
three_hosts_named zero h e = cc
three_hosts_named (suc zero) h e = cc
three_hosts_named (suc (suc zero)) h e = cc
three_hosts_named (suc (suc (suc a))) h e = cc

second_of : Bytes → ℕ
second_of (x ∷ y ∷ rest) = y
second_of _ = 0

first_of : Bytes → ℕ
first_of (x ∷ rest) = x
first_of [] = 0

three_hosts-IsNamed : IsNamed three_hosts
unfolding second_of first_of
three_hosts-IsNamed = record {
  unique = λ a b h g ea eb e.
      let same : b'0' + a ≡ b'0' + b =
        ap second_of (sym (three_hosts_named a h ea) ∙ (e ∙ three_hosts_named b g eb)) in
      omega arith;
  free = λ a h ea e.
      let same : b'c' ≡ b'n' = ap first_of (e ∙ three_hosts_named a h ea) in omega arith;
}

-- Node 2 asks node 1, and node 1 gets the message.
request_received_example :
    (sender receiver : Commo (List Bytes)) × (q : Interest (List Bytes)) × (new_commo components
        (load Mode.basic 2 three_hosts)
      ≡ ok sender)
    × (new_commo components (load Mode.basic 1 three_hosts) ≡ ok receiver)
    × (request components one_message sender some_prepare 1 ≡ ok q)
    × (receive components Mode.basic one_message component_api [] forget receiver q at_rest ≡ (
        if (1 == 1) && not (if_master (load Mode.basic 1 three_hosts))
        then forget some_prepare (named q.name) at_rest
        else ok at_rest))
request_received_example =
    request_received components Mode.basic three_hosts one_message component_api [] forget
      some_prepare 2 1 1 at_rest components-IsNameLibrary three_hosts-IsNamed (omega arith)
      (omega arith) (omega arith) refl (λ p last. rw (component_api, split_last-append p last) refl)
