-- ===== src/Condition/Wakes.antt =====
-- Signals of the condition variables in threads/synch.cc reach those who wait.
use nachos_system_design.Base.{
  ℕ, zero, suc, ◌+◌, ◌≤◌, ◌<◌, ◌≡◌, refl, sym, ap, ◌∙◌, ◌≢◌, inl, inr, true, false, some, List, [],
  ◌∷◌, arith, length, All, ◌==◌, eq→==, ==→eq, Bool-cases, Returns,
}
use nachos_system_design.Synch.{Semaphore, p_turn, v, v_from, Lock, is_held_by}
use nachos_system_design.Scheduler.{Kernel}
use nachos_system_design.Condition.Apart.{Apart, wake-Apart}
use nachos_system_design.Condition.{Condition, wake, signal_one, broadcast}

-- A thread that comes to the `P` of the waiter goes through at once.
abbrev pub Passes : ℕ → Condition → Type 0
Passes w c = (t : ℕ) (k : Kernel) → (p_turn t (c.semaphores w) k).0 ≡ true

v_from-raises : (q : List ℕ) (s : Semaphore) (k : Kernel) → (v_from q s k).0.value ≡ s.value + 1
unfolding v_from
v_from-raises [] s k = refl
v_from-raises (t ∷ ts) s k = refl

v-raises : (s : Semaphore) (k : Kernel) → (v s k).0.value ≡ s.value + 1
unfolding v
v-raises s k = v_from-raises s.queue s k

-- What a wake-up does to the semaphores.
wake_effect :
    (c : Condition) (w : ℕ) (ws : List ℕ) (u : ℕ)
    → (0 < ((wake c (w ∷ ws)).semaphores w).value)
      × ((c.semaphores u).value ≤ ((wake c (w ∷ ws)).semaphores u).value)
      × (w ≢ u → (wake c (w ∷ ws)).semaphores u ≡ c.semaphores u)
unfolding wake
wake_effect c w ws u =
    let raised = v-raises (c.semaphores w) c.kernel in
    elim (Bool-cases (u == w)) [
      | inl e ↦
          let same : u ≡ w = ==→eq u w e in
          rw (e, eq→== w w refl)
            (
              omega (arith, raised),
              omega (arith, raised, ap (λ x. (c.semaphores x).value) same),
              λ ne. absurd (ne (sym same)),
            )
      | inr e ↦ rw (e, eq→== w w refl) (omega (arith, raised), omega arith, λ ne. refl)
    ]

pub broadcast-Passes :
    (ws : List ℕ) (n t : ℕ) (lock : Lock) (c : Condition)
    → c.wait_queue ≡ ws
    → is_held_by t lock ≡ true
    → length ws < n
    → Apart c ws
    → Returns (broadcast n t lock c) λ r.
      (c' : Condition) × (r ≡ some c')
      × (c'.wait_queue ≡ [])
      × ((u : ℕ) → (c.semaphores u).value ≤ (c'.semaphores u).value)
      × All (λ w. 0 < (c'.semaphores w).value) ws
      × ((u : ℕ) → All (λ w. w ≢ u) ws → c'.semaphores u ≡ c.semaphores u)
      × (c'.kernel.assert_failed ≡ false)
unfolding broadcast signal_one wake
broadcast-Passes ws zero t lock c e held fuel a = absurd (omega arith)
broadcast-Passes [] (suc n) t lock c e held fuel a =
    (some c, rw e refl, (c, refl, e, (λ u. omega arith), tt, (λ u _. refl), a.sound))
broadcast-Passes (w ∷ ws) (suc n) t lock c e held fuel a =
    let woken = (wake_effect c w ws w).0 in
    let kept = λ (u : ℕ). (wake_effect c w ws u).1 in
    let others = λ (u : ℕ). (wake_effect c w ws u).2 in
    let (r, run, (c', found, empty, raised, all, same, sound)) =
      broadcast-Passes ws n t lock (wake c (w ∷ ws)) refl held (omega arith)
        (wake-Apart c w ws a) in
    (
      r,
      rw (e, held) run,
      (
        c',
        found,
        empty,
        (λ u. omega (arith, kept u, raised u)),
        (omega (arith, woken, raised w), all),
        (λ u (ne, rest). same u rest ∙ others u ne),
        sound,
      ),
    )
