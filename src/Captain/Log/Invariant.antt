-- ===== src/Captain/Log/Invariant.antt =====
-- The form of the log of captain.cpp, and the loop of `add_callback`.
use ndnpaxos.Prelude.{
  ℕ, zero, suc, ◌+◌, ◌≤◌, ◌<◌, ◌≡◌, refl, ◌∙◌, ap, ◌⊎◌, inl, inr, none, some, arith, length,
  get_elem?, get_elem?-lt, ltb, Bool-cases, Option-cases, subst, ok-injective, ok, ℕ_discrete,
}
use ndnpaxos.Types.{PropValue}
use ndnpaxos.Captain.State.{Captain}
use ndnpaxos.Captain.Log.{deliver, callback_loop}

-- Entry `slot` of the log holds `value`.
abbrev pub Holds : {Name : Type 0} → Captain Name → ℕ → PropValue → Type 0
Holds c slot value = get_elem? c.chosen_values slot ≡ some (some value)

-- The log has an entry for each slot up to `max_chosen`, and the slots from 1 up to
-- `max_chosen_without_hole` hold values.
pub record IsLog {Name : Type 0} (c : Captain Name) : Type 0 where
  pub size : length c.chosen_values ≡ suc c.max_chosen
  pub within : c.max_chosen_without_hole ≤ c.max_chosen
  pub filled :
      (slot : ℕ)
      → 0 < slot
      → slot ≤ c.max_chosen_without_hole
      → (value : PropValue) × Holds c slot value

-- What the log has at hand has been passed on: the next slot is a hole, or is the end.
abbrev pub IsDelivered : {Name : Type 0} → Captain Name → Type 0
IsDelivered c =
    (c.max_chosen_without_hole ≡ c.max_chosen)
    ⊎ (get_elem? c.chosen_values (suc c.max_chosen_without_hole) ≡ some none)

-- Nothing but the callbacks and a command's effects differs.
pub record Same {Name : Type 0} (c d : Captain Name) : Type 0 where
  pub chosen_values : d.chosen_values ≡ c.chosen_values
  pub max_chosen : d.max_chosen ≡ c.max_chosen

module _ {Name : Type 0} where
  pub deliver-Same : (value : PropValue) (c : Captain Name) → Same c (deliver value c)
  unfolding deliver
  deliver-Same value c = record { chosen_values = ground arith; max_chosen = ground arith }

  pub deliver-hole :
      (value : PropValue) (c : Captain Name)
      → (deliver value c).max_chosen_without_hole ≡ suc c.max_chosen_without_hole
  unfolding deliver
  deliver-hole value c = ground arith

  pub deliver-IsLog :
      (value : PropValue) (c : Captain Name)
      → IsLog c
      → c.max_chosen_without_hole < c.max_chosen
      → Holds c (suc c.max_chosen_without_hole) value
      → IsLog (deliver value c)
  deliver-IsLog value c l below at_next =
      let s : Same c (deliver value c) = deliver-Same value c in
      record {
        size = rw (s.chosen_values, s.max_chosen) l.size;
        within = omega (arith, deliver-hole value c, s.max_chosen);
        filled = λ slot pos le. elim (ℕ_discrete slot (suc c.max_chosen_without_hole)) [
          | yes e ↦ (value, rw s.chosen_values (rw e at_next))
          | no ne ↦
              let (old, holds) = l.filled slot pos (omega (arith, deliver-hole value c)) in
              (old, rw s.chosen_values holds)
        ];
      }

  -- The loop ends with a result, keeps the log, and passes on all that is at hand.
  pub callback_loop_lem :
      (fuel : ℕ) (c : Captain Name)
      → IsLog c
      → c.max_chosen ≤ c.max_chosen_without_hole + fuel
      → (d : Captain Name) × (callback_loop fuel c ≡ ok d)
        × Same c d
        × IsLog d
        × IsDelivered d
        × (c.max_chosen_without_hole ≤ d.max_chosen_without_hole)
  unfolding callback_loop
  callback_loop_lem zero c l h = (
    c,
    refl,
    record { chosen_values = refl; max_chosen = refl },
    l,
    inl (omega (arith, l.within)),
    omega arith,
  )
  callback_loop_lem (suc fuel) c l h =
      elim (Bool-cases (ltb c.max_chosen_without_hole c.max_chosen)) [
        | inr full ↦ (
          c,
          rw full refl,
          record { chosen_values = refl; max_chosen = refl },
          l,
          inl (ground (arith, l.within)),
          omega arith,
        )
        | inl more ↦
            let below : c.max_chosen_without_hole < c.max_chosen = ground arith in
            let (entry, e) =
              get_elem?-lt c.chosen_values (suc c.max_chosen_without_hole)
                (omega (arith, l.size)) in
            elim (Option-cases entry) [
              | inl hole ↦ (
                c,
                rw more (rw e (rw hole refl)),
                record { chosen_values = refl; max_chosen = refl },
                l,
                inr (e ∙ ap some hole),
                omega arith,
              )
              | inr (value, held) ↦
                  let rest =
                    callback_loop_lem fuel (deliver value c)
                      (deliver-IsLog value c l below (e ∙ ap some held))
                      (omega (arith, deliver-hole value c, (deliver-Same value c).max_chosen)) in
                  (
                    rest.0,
                    rw more (rw e (rw held rest.1)),
                    record {
                      chosen_values = rest.2.chosen_values ∙ (deliver-Same value c).chosen_values;
                      max_chosen = rest.2.max_chosen ∙ (deliver-Same value c).max_chosen;
                    },
                    rest.3,
                    rest.4,
                    omega (arith, rest.5, deliver-hole value c),
                  )
            ]
      ]

  -- What each delivery keeps, the loop keeps.
  pub callback_loop-keeps {ℓ} :
      (P : Captain Name → Type ℓ)
      → ((value : PropValue) (c : Captain Name)
          → IsLog c
          → Holds c (suc c.max_chosen_without_hole) value
          → P c
          → P (deliver value c))
      → (fuel : ℕ) (c d : Captain Name) → IsLog c
      → P c
      → callback_loop fuel c ≡ ok d
      → P d
  unfolding callback_loop
  callback_loop-keeps P step zero c d l p e = subst P (ok-injective e) p
  callback_loop-keeps P step (suc fuel) c d l p e =
      elim (Bool-cases (ltb c.max_chosen_without_hole c.max_chosen)) [
        | inr full ↦ subst P (ok-injective (rw full at e)) p
        | inl more ↦
            let below : c.max_chosen_without_hole < c.max_chosen = ground arith in
            let (entry, at_next) =
              get_elem?-lt c.chosen_values (suc c.max_chosen_without_hole)
                (omega (arith, l.size)) in
            elim (Option-cases entry) [
              | inl hole ↦ subst P (ok-injective (rw (more, at_next, hole) at e)) p
              | inr (value, held) ↦
                  callback_loop-keeps P step fuel (deliver value c) d
                    (deliver-IsLog value c l below (at_next ∙ ap some held))
                    (step value c l (at_next ∙ ap some held) p) (rw (more, at_next, held) at e)
            ]
      ]
