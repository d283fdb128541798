-- ===== src/Condition/Apart.antt =====
-- The lists of threads that threads/synch.cc moves from the queue of a semaphore to the ready list,
-- and when `Append` finds no thread there already.
use nachos_system_design.Base.{
  ℕ, ◌≡◌, refl, sym, ap, ap₂, ◌∙◌, subst, inl, inr, false, ◌||◌, List, [], ◌∷◌, ◌++◌, arith, All,
  ◌==◌, eq→==, Bool-cases,
}
use nachos_system_design.Scheduler.{Kernel, is_in, check_append, ready_to_run}
use nachos_system_design.Synch.{Semaphore, v, v_from, Lock}
use nachos_system_design.Condition.{Semaphores, with_semaphore, Condition, wake}

abbrev pub IsDistinct : List ℕ → Type 0
IsDistinct [] = Unit
IsDistinct (t ∷ ts) = (is_in t ts ≡ false) × IsDistinct ts

-- None of the threads is ready.
abbrev pub Unready : Kernel → List ℕ → Type 0
Unready k = All (λ t. is_in t k.ready_list ≡ false)

-- The thread that a V takes off a queue.
abbrev pub front : List ℕ → List ℕ
front [] = []
front (t ∷ _) = t ∷ []

abbrev pub fronts : Semaphores → List ℕ → List ℕ
fronts sems [] = []
fronts sems (w ∷ ws) = front (sems w).queue ++ fronts sems ws

-- The waiters are different ones, and the threads that their V's would take off are different and
-- not ready; no ASSERT has failed.
pub record Apart (c : Condition) (ws : List ℕ) : Type 0 where
  pub distinct : IsDistinct ws
  pub sleepers : IsDistinct (fronts c.semaphores ws)
  pub unready : Unready c.kernel (fronts c.semaphores ws)
  pub sound : c.kernel.assert_failed ≡ false

is_in-snoc :
    (x t : ℕ) (l : List ℕ) → is_in x l ≡ false → (t == x) ≡ false → is_in x (l ++ t ∷ []) ≡ false
unfolding is_in
is_in-snoc x t [] e ne = rw ne refl
is_in-snoc x t (u ∷ l) e ne = elim (Bool-cases (u == x)) [
  | inl same ↦ absurd (ground (arith, e, same))
  | inr other ↦ rw other (is_in-snoc x t l (ap (λ b. b || is_in x l) (sym other) ∙ e) ne)
]

pub IsDistinct-snoc :
    (t : ℕ) (ts : List ℕ) → is_in t ts ≡ false → IsDistinct ts → IsDistinct (ts ++ t ∷ [])
unfolding is_in
IsDistinct-snoc t [] e d = (refl, tt)
IsDistinct-snoc t (u ∷ ts) e (first, d) = elim (Bool-cases (u == t)) [
  | inl same ↦ absurd (ground (arith, e, same))
  | inr other ↦
      let rest : is_in t ts ≡ false = ap (λ b. b || is_in t ts) (sym other) ∙ e in
      let back : (t == u) ≡ false = ground arith in
      (is_in-snoc u t ts first back, IsDistinct-snoc t ts rest d)
]

-- A thread that becomes ready and is not among others.
Unready-ready_to_run :
    (t : ℕ) (k : Kernel) (ts : List ℕ)
    → is_in t ts ≡ false
    → Unready k ts
    → Unready (ready_to_run k t) ts
unfolding is_in ready_to_run
Unready-ready_to_run t k [] e h = tt
Unready-ready_to_run t k (u ∷ ts) e (first, h) = elim (Bool-cases (u == t)) [
  | inl same ↦ absurd (ground (arith, e, same))
  | inr other ↦
      let rest : is_in t ts ≡ false = ap (λ b. b || is_in t ts) (sym other) ∙ e in
      let back : (t == u) ≡ false = ground arith in
      (is_in-snoc u t k.ready_list first back, Unready-ready_to_run t k ts rest h)
]

ready_sound :
    (t : ℕ) (k : Kernel)
    → is_in t k.ready_list ≡ false
    → k.assert_failed ≡ false
    → (ready_to_run k t).assert_failed ≡ false
unfolding ready_to_run check_append
ready_sound t k absent sound = ap₂ (λ a b. a || b) sound absent

-- After a V on a semaphore with that queue, the others are still apart.
v_from-apart :
    (q : List ℕ) (s : Semaphore) (k : Kernel) (others : List ℕ)
    → IsDistinct (front q ++ others)
    → Unready k (front q ++ others)
    → k.assert_failed ≡ false
    → IsDistinct others × Unready (v_from q s k).1 others × ((v_from q s k).1.assert_failed ≡ false)
unfolding v_from
v_from-apart [] s k others d h sound = (d, h, sound)
v_from-apart (t ∷ ts) s k others (first, d) (absent, h) sound =
    (d, Unready-ready_to_run t k others first h, ready_sound t k absent sound)

pub v-apart :
    (s : Semaphore) (k : Kernel) (others : List ℕ)
    → IsDistinct (front s.queue ++ others)
    → Unready k (front s.queue ++ others)
    → k.assert_failed ≡ false
    → IsDistinct others × Unready (v s k).1 others × ((v s k).1.assert_failed ≡ false)
unfolding v
v-apart s k others = v_from-apart s.queue s k others

-- The semaphores of other waiters.
fronts-same :
    (sems : Semaphores) (w : ℕ) (s : Semaphore) (ws : List ℕ)
    → is_in w ws ≡ false
    → fronts (with_semaphore sems w s) ws ≡ fronts sems ws
unfolding is_in
fronts-same sems w s [] e = refl
fronts-same sems w s (u ∷ us) e = elim (Bool-cases (u == w)) [
  | inl same ↦ absurd (ground (arith, e, same))
  | inr other ↦
      let rest : is_in w us ≡ false = ap (λ b. b || is_in w us) (sym other) ∙ e in
      rw other (ap (λ l. front (sems u).queue ++ l) (fronts-same sems w s us rest))
]

-- A new waiter, for which no thread has come to its P.
pub fronts-new :
    (sems : Semaphores) (w : ℕ) (s : Semaphore) (ws : List ℕ)
    → s.queue ≡ []
    → is_in w ws ≡ false
    → fronts (with_semaphore sems w s) (ws ++ w ∷ []) ≡ fronts sems ws
unfolding is_in
fronts-new sems w s [] empty e = rw (eq→== w w refl, empty) refl
fronts-new sems w s (u ∷ us) empty e = elim (Bool-cases (u == w)) [
  | inl same ↦ absurd (ground (arith, e, same))
  | inr other ↦
      let rest : is_in w us ≡ false = ap (λ b. b || is_in w us) (sym other) ∙ e in
      rw other (ap (λ l. front (sems u).queue ++ l) (fronts-new sems w s us empty rest))
]

pub wake-Apart :
    (c : Condition) (w : ℕ) (ws : List ℕ) → Apart c (w ∷ ws) → Apart (wake c (w ∷ ws)) ws
unfolding wake
wake-Apart c w ws a =
    let (d, h, sound) =
      v-apart (c.semaphores w) c.kernel (fronts c.semaphores ws) a.sleepers a.unready a.sound in
    let same = fronts-same c.semaphores w (v (c.semaphores w) c.kernel).0 ws a.distinct.0 in
    record {
      distinct = a.distinct.1;
      sleepers = subst IsDistinct (sym same) d;
      unready = subst (Unready (v (c.semaphores w) c.kernel).1) (sym same) h;
      sound = sound;
    }

-- The waiters are different; and the threads that the V's of the lock and of each waiter would take
-- off are different and not ready; no ASSERT has failed.
pub record IsApart (lock : Lock) (c : Condition) : Type 0 where
  pub distinct : IsDistinct c.wait_queue
  pub sleepers : IsDistinct (front lock.semaphore.queue ++ fronts c.semaphores c.wait_queue)
  pub unready : Unready c.kernel (front lock.semaphore.queue ++ fronts c.semaphores c.wait_queue)
  pub sound : c.kernel.assert_failed ≡ false

-- What `Wait` leaves at its P.
abbrev pub waiting_too : ℕ → Lock → Condition → Condition
waiting_too waiter lock c = record {
  wait_queue = c.wait_queue ++ waiter ∷ [];
  semaphores = with_semaphore c.semaphores waiter (record { value = 0; queue = [] });
  kernel = (v lock.semaphore c.kernel).1;
}
