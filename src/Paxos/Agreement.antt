-- ===== src/Paxos/Agreement.antt =====
-- What is chosen for one slot, over all runs of the nodes.
use ndnpaxos.Prelude.{
  ℕ, ◌<◌, ◌≡◌, refl, sym, ◌∙◌, ap, subst, inl, inr, List, [], ◌∷◌, arith, All, dec_lt,
}
use ndnpaxos.Types.{PropValue}
use ndnpaxos.Paxos.Count.{count-overlap}
use ndnpaxos.Paxos.System.{Cluster, IsCluster, ask_accept, Nodes, System, In, Reach}
use ndnpaxos.Paxos.Invariant.{Proposed, Voted, Blocked, Inv}
use ndnpaxos.Paxos.Reaching.{ChosenOk, SystemOk, Reach-SystemOk}

-- No quorum accepts a ballot that a quorum is bound not to accept.
Voted-not_Blocked :
    (k : Cluster) (w : Nodes) (b : ℕ) → IsCluster k → Voted k w.net b → Blocked k w b → ⊥
Voted-not_Blocked k w b c (voters, many, all) (others, enough, none_of) =
    let (a, small, voted, bound) =
      count-overlap voters others k.n (omega (arith, c.majority, many, enough)) in
    (none_of a bound).1 (all a voted)

-- The value of a higher ballot has the id of a lower one that is chosen.
lower-agrees :
    (k : Cluster) (w : Nodes) (b d : ℕ) (x y : PropValue)
    → IsCluster k
    → Inv k w
    → b < d
    → ChosenOk k w.net (b, x)
    → ChosenOk k w.net (d, y)
    → x.id ≡ y.id
lower-agrees k w b d x y c inv less ((f, fat, fb, fx), voted) ((g, gat, gb, gy), more) =
    let (owned, coupled, ruled) = inv.packets (ask_accept g) gat in
    let low = inv.packets (ask_accept f) fat in
    elim (ruled b (omega (arith, low.0.1)) (omega arith)) [
      | inr blocked ↦ absurd (Voted-not_Blocked k w b c voted blocked)
      | inl (z, p, e) ↦ ap (λ v. v.id) (inv.unique b x z (f, fat, fb, fx) p) ∙ e ∙ ap (λ v. v.id) gy
    ]

pub In-All {κ} : {A : Type 0} (P : A → Type κ) (xs : List A) (x : A) → In x xs → All P xs → P x
In-All P [] x at h = absurd at
In-All P (y ∷ ys) x (inl e) h = subst P (sym e) h.0
In-All P (y ∷ ys) x (inr at) h = In-All P ys x at h.1

same_ballot :
    (k : Cluster) (s : System) (b d : ℕ) (x y : PropValue)
    → SystemOk k s
    → In (b, x) s.chosen
    → In (d, y) s.chosen
    → b ≡ d
    → x ≡ y
same_ballot k s b d x y h hx hy e =
    let okx = In-All (ChosenOk k s.nodes.net) s.chosen (b, x) hx h.chosen in
    let oky = In-All (ChosenOk k s.nodes.net) s.chosen (d, y) hy h.chosen in
    h.inv.unique d x y (subst (λ n. Proposed s.nodes.net n x) e okx.0) oky.0

-- Agreement: in the basic and the quorum build, in a cluster whose quorums are majorities and in which
-- fewer than 2^16 nodes take their numbers as identifiers, while no counter of ballots comes near 2^64:
-- whatever the network loses, repeats, delays or reorders, and however the proposers of all nodes
-- compete, all values that are reported as chosen for a slot have one id.
pub agreement :
    (k : Cluster) (s : System) (b d : ℕ) (x y : PropValue)
    → IsCluster k
    → Reach k s
    → In (b, x) s.chosen
    → In (d, y) s.chosen
    → x.id ≡ y.id
agreement k s b d x y c r hx hy =
    let h = Reach-SystemOk k s c r in
    let okx = In-All (ChosenOk k s.nodes.net) s.chosen (b, x) hx h.chosen in
    let oky = In-All (ChosenOk k s.nodes.net) s.chosen (d, y) hy h.chosen in
    elim (dec_lt b d) [
      | yes less ↦ lower-agrees k s.nodes b d x y c h.inv less okx oky
      | no ge ↦ elim (dec_lt d b) [
        | yes more ↦ sym (lower-agrees k s.nodes d b y x c h.inv more oky okx)
        | no le ↦ ap (λ v. v.id) (same_ballot k s b d x y h hx hy (omega arith))
      ]
    ]

-- In every run of such a cluster, two reports of one ballot have the same value.
pub ballot_agreement :
    (k : Cluster) (s : System) (b : ℕ) (x y : PropValue)
    → IsCluster k
    → Reach k s
    → In (b, x) s.chosen
    → In (b, y) s.chosen
    → x ≡ y
ballot_agreement k s b x y c r hx hy = same_ballot k s b b x y (Reach-SystemOk k s c r) hx hy refl
