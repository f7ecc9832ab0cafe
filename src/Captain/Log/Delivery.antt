-- ===== src/Captain/Log/Delivery.antt =====
-- The order of the calls of the callback in captain.cpp.
use ndnpaxos.Prelude.{
  ℕ, zero, suc, ◌-◌, ◌≤◌, ◌<◌, ◌≡◌, refl, sym, ◌∙◌, ap, ap₂, Bool, true, List, [], ◌∷◌, Option,
  none, some, arith, get_elem?, ok,
}
use ndnpaxos.Types.{PropValue, default_value, Bytes}
use ndnpaxos.Captain.State.{Captain, Event}
use ndnpaxos.Captain.Log.{deliver, callback_loop, add_callback, store_value, add_chosen_value}
use ndnpaxos.Captain.Log.Invariant.{
  Holds, IsLog, IsDelivered, callback_loop-keeps, deliver-Same, deliver-hole,
}
use ndnpaxos.Captain.Log.Growth.{Added, store_value_lem, store_value-frame, add_chosen_value_lem}

-- The calls of the callback among the events, latest first: slots and contents.
unfoldable pub calls_of : {Name : Type 0} → List (Event Name) → List (ℕ × Bytes)
calls_of [] = []
calls_of (Event.called slot content ∷ events) = (slot, content) ∷ calls_of events
calls_of (e ∷ events) = calls_of events

-- The calls of the full callback, with the values.
unfoldable pub full_calls_of : {Name : Type 0} → List (Event Name) → List (ℕ × PropValue)
full_calls_of [] = []
full_calls_of (Event.called_full slot value node ∷ events) = (slot, value) ∷ full_calls_of events
full_calls_of (e ∷ events) = full_calls_of events

-- Which callbacks are set, and the calls of both.
abbrev pub flags : {Name : Type 0} → Captain Name → Bool × Bool
flags c = (c.has_callback, c.has_callback_full)

abbrev pub deliveries :
    {Name : Type 0} → List (Event Name) → List (ℕ × Bytes) × List (ℕ × PropValue)
deliveries events = (calls_of events, full_calls_of events)

-- One of the callbacks: its calls, whether it is set, and what it is given of a value.
pub record Watch (Name A : Type 0) : Type 0 where
  pub calls : List (Event Name) → List (ℕ × A)
  pub flag : Captain Name → Bool
  pub pick : PropValue → A
  pub default : A

-- It is called once for each value that is passed on, and by nothing else.
pub record IsWatch {Name A : Type 0} (w : Watch Name A) : Type 0 where
  pub delivers :
      (value : PropValue) (c : Captain Name)
      → w.flag c ≡ true
      → (w.flag (deliver value c) ≡ true)
        × (w.calls (deliver value c).events
            ≡ (suc c.max_chosen_without_hole, w.pick value) ∷ w.calls c.events)
  pub frame :
      (c d : Captain Name)
      → flags d ≡ flags c
      → deliveries d.events ≡ deliveries c.events
      → (w.flag d ≡ w.flag c) × (w.calls d.events ≡ w.calls c.events)

abbrev pub callback_watch : {Name : Type 0} → Watch Name Bytes
callback_watch = record {
  calls = calls_of;
  flag = λ c. c.has_callback;
  pick = λ value. value.content;
  default = [];
}

abbrev pub full_watch : {Name : Type 0} → Watch Name PropValue
full_watch = record {
  calls = full_calls_of;
  flag = λ c. c.has_callback_full;
  pick = λ value. value;
  default = default_value;
}

pub callback_watch-IsWatch : {Name : Type 0} → IsWatch (callback_watch {Name = Name})
unfolding deliver calls_of
callback_watch-IsWatch = record {
  delivers = λ value c on. (ground arith, ground arith);
  frame = λ c d same calls. (ap (λ x. x.0) same, ap (λ x. x.0) calls);
}

pub full_watch-IsWatch : {Name : Type 0} → IsWatch (full_watch {Name = Name})
unfolding deliver full_calls_of
full_watch-IsWatch = record {
  delivers = λ value c on. (ground arith, ground arith);
  frame = λ c d same calls. (ap (λ x. x.1) same, ap (λ x. x.1) calls);
}

-- What a callback is given of an entry of the log.
abbrev pub picked_at : {A : Type 0} → (PropValue → A) → A → Option (Option PropValue) → A
picked_at pick default none = default
picked_at pick default (some none) = default
picked_at pick default (some (some value)) = pick value

-- Slots `n`, …, 1 with what the log has there.
unfoldable pub passed :
    {A : Type 0} → (PropValue → A) → A → List (Option PropValue) → ℕ → List (ℕ × A)
passed pick default chosen zero = []
passed pick default chosen (suc n) =
    (suc n, picked_at pick default (get_elem? chosen (suc n))) ∷ passed pick default chosen n

-- The callback has been called for the slots 1, …, `max_chosen_without_hole`, once each, in this order,
-- with what the log has there.
abbrev pub IsPassed : {Name A : Type 0} → Watch Name A → Captain Name → Type 0
IsPassed w c = w.calls c.events ≡ passed w.pick w.default c.chosen_values c.max_chosen_without_hole

abbrev pub IsInOrder : {Name : Type 0} → Captain Name → Type 0
IsInOrder c = IsPassed callback_watch c

module _ {Name : Type 0} where
  add_chosen_value-eq :
      (slot : ℕ) (value : PropValue) (c s d : Captain Name)
      → store_value slot value c ≡ ok s
      → add_chosen_value slot value c ≡ ok d
      → callback_loop (s.max_chosen - s.max_chosen_without_hole) s ≡ ok d
  unfolding add_chosen_value add_callback
  add_chosen_value-eq slot value c s d stores adds = rw stores at adds

module _ {Name A : Type 0} (watch : Watch Name A) (laws : IsWatch watch) where
  passed-suc :
      (chosen : List (Option PropValue)) (n : ℕ)
      → passed watch.pick watch.default chosen (suc n)
        ≡ (suc n, picked_at watch.pick watch.default (get_elem? chosen (suc n)))
          ∷ passed watch.pick watch.default chosen n
  unfolding passed
  passed-suc chosen n = refl

  passed-kept :
      (c d : Captain Name) (n : ℕ)
      → ((i : ℕ) → 0 < i → i ≤ n → (w : PropValue) × Holds c i w × Holds d i w)
      → passed watch.pick watch.default d.chosen_values n
        ≡ passed watch.pick watch.default c.chosen_values n
  unfolding passed
  passed-kept c d zero both = refl
  passed-kept c d (suc n) both =
      let (w, old, new) = both (suc n) (omega arith) (omega arith) in
      cc (
        ap (picked_at watch.pick watch.default) (new ∙ sym old),
        passed-kept c d n (λ i pos le. both i pos (omega arith)),
      )

  deliver-IsPassed :
      (value : PropValue) (c : Captain Name)
      → Holds c (suc c.max_chosen_without_hole) value
      → (watch.flag c ≡ true) × IsPassed watch c
      → (watch.flag (deliver value c) ≡ true) × IsPassed watch (deliver value c)
  deliver-IsPassed value c held (on, o) =
      let (still, calls) = laws.delivers value c on in
      (
        still,
        calls
            ∙ (cc (
              ap (picked_at watch.pick watch.default) held,
              o,
              passed-suc c.chosen_values c.max_chosen_without_hole,
            )
                ∙ sym (
                    ap₂ (passed watch.pick watch.default) (deliver-Same value c).chosen_values
                      (deliver-hole value c))),
      )

  store_value-IsPassed :
      (slot : ℕ) (value : PropValue) (c d : Captain Name)
      → IsLog c
      → Added slot value c d
      → store_value slot value c ≡ ok d
      → (watch.flag c ≡ true) × IsPassed watch c
      → (watch.flag d ≡ true) × IsPassed watch d
  store_value-IsPassed slot value c d l a e (on, o) =
      let f = store_value-frame slot value c d e in
      let hole : d.max_chosen_without_hole ≡ c.max_chosen_without_hole = ap hole_of f in
      let (same, calls) = laws.frame c d (ap (λ x. flags x) f) (ap (λ x. deliveries x.events) f) in
      (
        same ∙ on,
        calls
            ∙ (o
                ∙ (sym (
                      passed-kept c d c.max_chosen_without_hole
                        (λ i pos le. let (w, h) = l.filled i pos le in (w, h, a.kept i w h)))
                    ∙ ap (passed watch.pick watch.default d.chosen_values) (sym hole))),
      )
    where
      hole_of : Captain Name → ℕ
      hole_of x = x.max_chosen_without_hole

  pub add_chosen_value_order :
      (slot : ℕ) (value : PropValue) (c d : Captain Name)
      → IsLog c
      → (watch.flag c ≡ true) × IsPassed watch c
      → add_chosen_value slot value c ≡ ok d
      → (watch.flag d ≡ true) × IsPassed watch d
  add_chosen_value_order slot value c d l h adds =
      let (s, stores, a) = store_value_lem slot value c l in
      callback_loop-keeps (λ x. (watch.flag x ≡ true) × IsPassed watch x)
        (λ v x _ held k. deliver-IsPassed v x held k) _ s d a.log
        (store_value-IsPassed slot value c s l a stores h)
        (add_chosen_value-eq slot value c s d stores adds)

-- With the callback set, adding a chosen value keeps the callbacks in order: they have been called for
-- exactly the slots without a hole before them, once each, in increasing order, with what the log
-- holds there.
pub add_chosen_value-IsInOrder :
    {Name : Type 0} (slot : ℕ) (value : PropValue) (c : Captain Name)
    → IsLog c
    → c.has_callback ≡ true
    → IsInOrder c
    → (d : Captain Name) × (add_chosen_value slot value c ≡ ok d) × IsInOrder d × IsDelivered d
add_chosen_value-IsInOrder slot value c l on o =
    let (d, adds, _, delivered) = add_chosen_value_lem slot value c l in
    (
      d,
      adds,
      (add_chosen_value_order callback_watch callback_watch-IsWatch slot value c d l (on, o)
          adds).1,
      delivered,
    )
