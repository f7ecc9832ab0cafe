-- ===== src/Captain/Log/Growth.antt =====
-- Adding a chosen value (captain.cpp).
use ndnpaxos.Prelude.{
  ℕ, zero, suc, ◌+◌, ◌-◌, ◌≤◌, ◌<◌, ◌≡◌, refl, sym, ◌∙◌, ap, ◌⊎◌, inl, inr, List, [], ◌∷◌, ◌++◌,
  Option, none, some, arith, length, length-append, length-replicate, length-set, replicate,
  get_elem?, get_elem?-lt, get_elem?-append_left, get_elem?-set_self, get_elem?-set_ne, set, leb,
  Bool-cases, Option-cases, ok, ℕ_discrete,
}
use ndnpaxos.Types.{PropValue}
use ndnpaxos.Captain.State.{Captain}
use ndnpaxos.Captain.Log.{add_callback, store_value, add_chosen_value}
use ndnpaxos.Captain.Log.Invariant.{Holds, IsLog, IsDelivered, Same, callback_loop_lem}

-- Entries behind `xs`: `n` holes and then `v`.
get_elem?-extend {ℓ} :
    {A : Type ℓ} (xs : List (Option A)) (n : ℕ) (v : A) (i : ℕ) (w : A)
    → get_elem? (xs ++ (replicate n none ++ some v ∷ [])) i ≡ some (some w)
    → (get_elem? xs i ≡ some (some w)) ⊎ ((i ≡ length xs + n) × (w ≡ v))
get_elem?-extend [] zero v zero w h = inr (omega arith, cc)
get_elem?-extend [] zero v (suc i) w h = cc
get_elem?-extend [] (suc n) v zero w h = cc
get_elem?-extend [] (suc n) v (suc i) w h = elim (get_elem?-extend [] n v i w h) [
  | inl e ↦ cc
  | inr (e, f) ↦ inr (omega arith, f)
]
get_elem?-extend (x ∷ xs) n v zero w h = inl h
get_elem?-extend (x ∷ xs) n v (suc i) w h = elim (get_elem?-extend xs n v i w h) [
  | inl e ↦ inl e
  | inr (e, f) ↦ inr (omega arith, f)
]

get_elem?-extend_end {ℓ} :
    {A : Type ℓ} (xs : List (Option A)) (n : ℕ) (v : A) (i : ℕ)
    → i ≡ length xs + n
    → get_elem? (xs ++ (replicate n none ++ some v ∷ [])) i ≡ some (some v)
get_elem?-extend_end [] zero v zero h = refl
get_elem?-extend_end [] zero v (suc i) h = absurd (omega arith)
get_elem?-extend_end [] (suc n) v zero h = absurd (omega arith)
get_elem?-extend_end [] (suc n) v (suc i) h = get_elem?-extend_end [] n v i (omega arith)
get_elem?-extend_end (x ∷ xs) n v zero h = absurd (omega arith)
get_elem?-extend_end (x ∷ xs) n v (suc i) h = get_elem?-extend_end xs n v i (omega arith)

module _ {Name : Type 0} where
  -- What becomes of the log when `value` is added at `slot`: it stays well formed, no entry that
  -- holds a value changes, the slot holds its old value or else `value`, and no other slot gains one.
  pub record Added (slot : ℕ) (value : PropValue) (c d : Captain Name) : Type 0 where
    pub log : IsLog d
    pub kept : (i : ℕ) (w : PropValue) → Holds c i w → Holds d i w
    pub new_only : (i : ℕ) (w : PropValue) → Holds d i w → Holds c i w ⊎ ((i ≡ slot) × (w ≡ value))
    pub there : (w : PropValue) × Holds d slot w

  fill_hole :
      (slot : ℕ) (value : PropValue) (c : Captain Name)
      → IsLog c
      → slot ≤ c.max_chosen
      → get_elem? c.chosen_values slot ≡ some none
      → Added slot value c (record c { chosen_values = set c.chosen_values slot (some value) })
  fill_hole slot value c l le hole = record {
    log = record {
      size = length-set c.chosen_values slot (some value) ∙ l.size;
      within = l.within;
      filled = λ i pos below. let (w, holds) = l.filled i pos below in (w, keep i w holds);
    };
    kept = keep;
    new_only = λ i w holds. elim (ℕ_discrete slot i) [
      | yes e ↦ inr (sym e, cc (holds, self i e))
      | no ne ↦ inl (sym (get_elem?-set_ne c.chosen_values slot i (some value) ne) ∙ holds)
    ];
    there = (value, get_elem?-set_self c.chosen_values slot (some value) (omega (arith, l.size)));
  }
    where
      keep :
          (i : ℕ) (w : PropValue)
          → Holds c i w
          → get_elem? (set c.chosen_values slot (some value)) i ≡ some (some w)
      keep i w holds = elim (ℕ_discrete slot i) [
        | yes e ↦ cc (ap (get_elem? c.chosen_values) e, hole, holds)
        | no ne ↦ get_elem?-set_ne c.chosen_values slot i (some value) ne ∙ holds
      ]

      self :
          (i : ℕ)
          → slot ≡ i
          → get_elem? (set c.chosen_values slot (some value)) i ≡ some (some value)
      self i e =
          rw (← e) (get_elem?-set_self c.chosen_values slot (some value) (omega (arith, l.size)))

  extend :
      (slot : ℕ) (value : PropValue) (c : Captain Name)
      → IsLog c
      → c.max_chosen < slot
      → Added slot value c (record c {
        chosen_values =
            c.chosen_values ++ (replicate (slot - suc c.max_chosen) none ++ some value ∷ []);
        max_chosen = slot;
      })
  extend slot value c l above = record {
    log = record {
      size = omega (
        arith,
        l.size,
        length-append c.chosen_values (replicate (slot - suc c.max_chosen) none ++ some value ∷ []),
        length-append (replicate (slot - suc c.max_chosen) hole) (some value ∷ []),
        length-replicate (slot - suc c.max_chosen) hole,
      );
      within = omega (arith, l.within);
      filled = λ i pos below. let (w, holds) = l.filled i pos below in (w, keep i w holds);
    };
    kept = keep;
    new_only = λ i w holds.
        elim (get_elem?-extend c.chosen_values (slot - suc c.max_chosen) value i w holds) [
          | inl old ↦ inl old
          | inr (e, f) ↦ inr (omega (arith, l.size), f)
        ];
    there = (
      value,
      get_elem?-extend_end c.chosen_values (slot - suc c.max_chosen) value slot
          (omega (arith, l.size)),
    );
  }
    where
      hole : Option PropValue
      hole = none

      keep :
          (i : ℕ) (w : PropValue)
          → Holds c i w
          → get_elem?
              (c.chosen_values ++ (replicate (slot - suc c.max_chosen) none ++ some value ∷ []))
              i
            ≡ some (some w)
      keep i w holds = get_elem?-append_left c.chosen_values _ i (some w) holds

  Added-refl :
      (slot : ℕ) (value w : PropValue) (c : Captain Name)
      → IsLog c
      → Holds c slot w
      → Added slot value c c
  Added-refl slot value w c l holds = record {
    log = l;
    kept = λ i v h. h;
    new_only = λ i v h. inl h;
    there = (w, holds);
  }

  pub store_value_lem :
      (slot : ℕ) (value : PropValue) (c : Captain Name)
      → IsLog c
      → (d : Captain Name) × (store_value slot value c ≡ ok d) × Added slot value c d
  unfolding store_value
  store_value_lem slot value c l = elim (Bool-cases (leb slot c.max_chosen)) [
    | inr above ↦ (_, rw above refl, extend slot value c l (ground arith))
    | inl below ↦
        let (entry, e) = get_elem?-lt c.chosen_values slot (ground (arith, l.size)) in
        elim (Option-cases entry) [
          | inl hole ↦ (
            _,
            rw below (rw e (rw hole refl)),
            fill_hole slot value c l (ground arith) (e ∙ ap some hole),
          )
          | inr (w, held) ↦
              (c, rw below (rw e (rw held refl)), Added-refl slot value w c l (e ∙ ap some held))
        ]
  ]

  -- Of the whole state only the log is written.
  pub store_value-frame :
      (slot : ℕ) (value : PropValue) (c d : Captain Name)
      → store_value slot value c ≡ ok d
      → d ≡ record c { chosen_values = d.chosen_values; max_chosen = d.max_chosen }
  unfolding store_value
  store_value-frame slot value c d e = ground arith

  Added-Same :
      (slot : ℕ) (value : PropValue) (c d e : Captain Name)
      → Added slot value c d
      → Same d e
      → IsLog e
      → Added slot value c e
  Added-Same slot value c d e a s l = record {
    log = l;
    kept = λ i w h. rw s.chosen_values (a.kept i w h);
    new_only = λ i w h. a.new_only i w (rw s.chosen_values at h);
    there = let (w, h) = a.there in (w, rw s.chosen_values h);
  }

  -- On a well-formed log `add_chosen_value` has a result, for every slot and value: the log stays well
  -- formed, an entry that holds a value never changes, only the given slot may gain the given value and
  -- it holds a value afterwards, and the values at hand have been passed on up to the next hole.
  pub add_chosen_value_lem :
      (slot : ℕ) (value : PropValue) (c : Captain Name)
      → IsLog c
      → (d : Captain Name) × (add_chosen_value slot value c ≡ ok d)
        × Added slot value c d
        × IsDelivered d
  unfolding add_chosen_value add_callback
  add_chosen_value_lem slot value c l =
      let (d, stores, added) = store_value_lem slot value c l in
      let (e, loops, same, log, delivered, _) =
        callback_loop_lem (d.max_chosen - d.max_chosen_without_hole) d added.log
          (omega (arith, added.log.within)) in
      (e, rw stores loops, Added-Same slot value c d e added same log, delivered)
