-- ===== src/Interrupt/Pending.antt =====
-- The list of pending interrupts of machine/interrupt.cc, in the order of their times.
use nachos_system_design.Base.{
  All-imp, ℕ, ◌+◌, ◌^◌, ◌≤◌, ◌<◌, ◌≡◌, refl, ap, inl, inr, false, List, [], ◌∷◌, ◌++◌, arith, All,
  ltb, ltb→lt, Bool-cases,
}
use nachos_system_design.Machine.Word.Laws.{less-ltb}
use nachos_system_design.Interrupt.{PendingInterrupt, insert_pending, pending_compare}
use nachos_system_design.SortedList.{is_negative}

-- What `int` does not hold as a positive number.
abbrev pub limit : ℕ
limit = 2 ^ 31

-- Pending no later, and not before.
abbrev pub At : ℕ → PendingInterrupt → Type 0
At t p = p.when ≤ t

abbrev pub After : ℕ → PendingInterrupt → Type 0
After t p = t < p.when

abbrev pub Small : ℕ → PendingInterrupt → Type 0
Small room p = p.when + room < limit

-- In the order of their times.
abbrev pub IsOrdered : List PendingInterrupt → Type 0
IsOrdered [] = Unit
IsOrdered (p ∷ ps) = All (λ q. p.when ≤ q.when) ps × IsOrdered ps

pub is_negative-earlier :
    (p q : PendingInterrupt)
    → p.when < limit
    → q.when < limit
    → is_negative (pending_compare p q) ≡ ltb p.when q.when
unfolding pending_compare
is_negative-earlier p q h k =
    rw (less-ltb p.when q.when h k, less-ltb q.when p.when k h) (ground arith)

-- A new one goes to its place.
pub insert_pending-All {κ} :
    (P : PendingInterrupt → Type κ) (p : PendingInterrupt) (ps : List PendingInterrupt)
    → P p
    → All P ps
    → All P (insert_pending p ps)
unfolding insert_pending
insert_pending-All P p [] h k = (h, tt)
insert_pending-All P p (q ∷ qs) h (k, ks) = elim (Bool-cases (is_negative (pending_compare p q))) [
  | inl e ↦ rw e (h, (k, ks))
  | inr e ↦ rw e (k, insert_pending-All P p qs h ks)
]

pub insert_pending-IsOrdered :
    (p : PendingInterrupt) (ps : List PendingInterrupt)
    → p.when < limit
    → All (λ q. q.when < limit) ps
    → IsOrdered ps
    → IsOrdered (insert_pending p ps)
unfolding insert_pending
insert_pending-IsOrdered p [] h small o = (tt, tt)
insert_pending-IsOrdered p (q ∷ qs) h (k, small) (first, o) =
    elim (Bool-cases (ltb p.when q.when)) [
      | inl e ↦
          let before = ltb→lt p.when q.when e in
          rw (is_negative-earlier p q h k, e)
            ((
              (
                omega arith,
                All-imp (λ r. q.when ≤ r.when) (λ r. p.when ≤ r.when) qs (λ r l. omega arith) first,
              ),
              (first, o),
            ))
      | inr e ↦
          let behind : q.when ≤ p.when = ground arith in
          rw (is_negative-earlier p q h k, e)
            ((
              insert_pending-All (λ r. q.when ≤ r.when) p qs behind first,
              insert_pending-IsOrdered p qs h small o,
            ))
    ]

-- It goes behind those that are due.
pub insert_pending-behind :
    (t : ℕ) (p : PendingInterrupt) (due later : List PendingInterrupt)
    → t < limit
    → p.when < limit
    → After t p
    → All (At t) due
    → insert_pending p (due ++ later) ≡ due ++ insert_pending p later
unfolding insert_pending
insert_pending-behind t p [] later room h after d = refl
insert_pending-behind t p (q ∷ due) later room h after (at, d) =
    let behind : ltb p.when q.when ≡ false = ground arith in
    rw (is_negative-earlier p q h (omega arith), behind)
      (ap (λ l. q ∷ l) (insert_pending-behind t p due later room h after d))

-- An ordered list is what is due by `t`, followed by what is later.
pub split_due :
    (t : ℕ) (ps : List PendingInterrupt)
    → IsOrdered ps
    → (due : List PendingInterrupt) × (later : List PendingInterrupt) × (ps ≡ due ++ later)
      × All (At t) due
      × All (After t) later
      × IsOrdered later
split_due t [] o = ([], [], refl, tt, tt, tt)
split_due t (p ∷ ps) (first, o) = elim (Bool-cases (ltb t p.when)) [
  | inl e ↦
      let after = ltb→lt t p.when e in
      (
        [],
        p ∷ ps,
        refl,
        tt,
        (after, All-imp (λ q. p.when ≤ q.when) (After t) ps (λ q l. omega arith) first),
        (first, o),
      )
  | inr e ↦
      let (due, later, parts, d, l, o') = split_due t ps o in
      (p ∷ due, later, ap (λ r. p ∷ r) parts, (ground arith, d), l, o')
]
