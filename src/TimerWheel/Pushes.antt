-- ===== src/TimerWheel/Pushes.antt =====
-- What TimerAddInLoop and TimerRefreshInLoop do to the schedule: one more pointer in one slot.
use flux_a_high_performance.Prelude.{
  ℕ, ◌+◌, ◌%◌, ◌<◌, ◌≡◌, ◌≢◌, refl, ap, true, false, List, [], ◌∷◌, ◌++◌, ◌==◌, ◌&&◌, ◌||◌,
  if◌then◌else◌, length, Bool-cases, inl, inr, ==_iff, arith,
}
use flux_a_high_performance.TimerWheel.Slots.{
  mem, slot, owns, slot-set_slot, length-set_slot, not-owns, mem-append,
}
use flux_a_high_performance.TimerWheel.{TimerWheel, push_back}
use flux_a_high_performance.TimerWheel.Schedule.{IsValid, DueIn, slot_in, not-owns-slot}

-- `w'` holds one more pointer to `p`, in the slot that is `k` ticks away.
pub record Pushed (w w' : TimerWheel) (p k : ℕ) : Type 0 where
  pub same_tick : w'.tick ≡ w.tick
  pub pushed : w'.wheel ≡ push_back ((w.tick + k) % 60) p w.wheel

slot-push_back :
    (i j p : ℕ) (ss : List (List ℕ))
    → j < length ss
    → slot i (push_back j p ss) ≡ (if i == j then slot j ss ++ p ∷ [] else slot i ss)
unfolding push_back
slot-push_back i j p ss h = slot-set_slot i j (slot j ss ++ p ∷ []) ss h

index_inj : (t e k : ℕ) → (t + e) % 60 ≡ (t + k) % 60 → e < 60 → k < 60 → e ≡ k
index_inj t e k q h l = omega arith

index-same : (t e k : ℕ) → e < 60 → k < 60 → ((t + e) % 60 == (t + k) % 60) ≡ (e == k)
index-same t e k h l = elim (Bool-cases (e == k)) [
  | inl y ↦
      let d : (t + e) % 60 ≡ (t + k) % 60 = ap (λ e. (t + e) % 60) ((==_iff e k).0 y) in
      rw y ((==_iff _ _).1 d)
  | inr n ↦
      let d : (t + e) % 60 ≢ (t + k) % 60 = λ q. ground (arith, index_inj t e k q h l) in
      rw n (ground arith)
]

slot_in-Pushed :
    {w w' : TimerWheel} {p k : ℕ} (e : ℕ)
    → IsValid w
    → Pushed w w' p k
    → e < 60
    → k < 60
    → slot_in e w' ≡ (if e == k then slot_in k w ++ p ∷ [] else slot_in e w)
unfolding slot_in
slot_in-Pushed {w} {w'} {p} {k} e v s h l = rw (
  s.pushed,
  s.same_tick,
  slot-push_back ((w.tick + e) % 60) ((w.tick + k) % 60) p w.wheel (omega (arith, v.dial)),
  index-same w.tick e k h l,
)

mem-Pushed :
    {w w' : TimerWheel} {p k : ℕ} (q e : ℕ)
    → IsValid w
    → Pushed w w' p k
    → e < 60
    → k < 60
    → mem q (slot_in e w') ≡ (((e == k) && (p == q)) || mem q (slot_in e w))
unfolding mem
mem-Pushed {w} {w'} {p} {k} q e v s h l = elim (Bool-cases (e == k)) [
  | inl y ↦
      let i : e ≡ k = (==_iff e k).0 y in
      rw (slot_in-Pushed e v s h l, y, mem-append q (slot_in k w) (p ∷ []), i) (ground arith)
  | inr n ↦ rw (slot_in-Pushed e v s h l, n) refl
]

-- The pointer is the last one, if none stood in a later slot.
pub Pushed-DueIn :
    {w w' : TimerWheel} {p k : ℕ}
    → IsValid w
    → Pushed w w' p k
    → k < 60
    → ((e : ℕ) → k < e → e < 60 → mem p (slot_in e w) ≡ false)
    → DueIn w' p k
Pushed-DueIn {w} {w'} {p} {k} v s l later = record {
  soon = l;
  held =
      let y : (k == k) ≡ true = ground arith in
      let z : (p == p) ≡ true = ground arith in rw (mem-Pushed p k v s l l, y, z) refl;
  last = λ e h m.
      let n : (e == k) ≡ false = ground arith in rw (mem-Pushed p e v s m l, n) (later e h m);
}

-- The other tasks stay due as they were.
pub Pushed-others :
    {w w' : TimerWheel} {p k : ℕ} (q d : ℕ)
    → IsValid w
    → Pushed w w' p k
    → k < 60
    → p ≢ q
    → DueIn w q d
    → DueIn w' q d
Pushed-others {w} {w'} {p} {k} q d v s l n u =
    let f : (p == q) ≡ false = ground arith in
    record {
      soon = u.soon;
      held = ground (arith, mem-Pushed q d v s u.soon l, u.held);
      last = λ e h m. ground (arith, mem-Pushed q e v s m l, u.last e h m);
    }

pub length-push_back : (j p : ℕ) (ss : List (List ℕ)) → length (push_back j p ss) ≡ length ss
unfolding push_back
length-push_back j p ss = length-set_slot j (slot j ss ++ p ∷ []) ss

pub not-owns-push_back :
    (q j p : ℕ) (ss : List (List ℕ))
    → j < length ss
    → p ≢ q
    → owns q ss ≡ false
    → owns q (push_back j p ss) ≡ false
unfolding mem
not-owns-push_back q j p ss h n o =
    let f : (p == q) ≡ false = ground arith in
    not-owns q (push_back j p ss) (λ i k. elim (Bool-cases (i == j)) [
      | inl t ↦
          rw
            (
              slot-push_back i j p ss h,
              t,
              mem-append q (slot j ss) (p ∷ []),
              not-owns-slot q j ss o,
              f,
            )
            refl
      | inr g ↦ rw (slot-push_back i j p ss h, g) (not-owns-slot q i ss o)
    ])
