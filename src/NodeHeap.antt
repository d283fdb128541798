-- ===== src/NodeHeap.antt =====
-- The list elements of lib/list.h on the heap: nodes at addresses, and the commands that reach
-- them through pointers. NULL is address 0.
use nachos_system_design.Base.{
  ℕ, ◌≡◌, refl, ◌≢◌, Bool, true, false, Option, none, some, if◌then◌else◌, ◌==◌, ne→==,
}

abbrev pub Ptr : Type 0
Ptr = ℕ

abbrev pub null : Ptr
null = 0

-- `ListElement`, for items that `==` compares: integers and pointers.
pub record Node : Type 0 where
  pub item : ℕ
  pub next : Ptr

-- The constructor, followed by the assignment of `next`.
abbrev pub element : ℕ → Ptr → Node
element v q = record { item = v; next = q }

abbrev pub Heap : Type 0
Heap = Ptr → Option Node

abbrev pub put : Heap → Ptr → Option Node → Heap
put h p c a = if a == p then c else h a

-- How a command ends: an ASSERT fails, a pointer leads nowhere, or a loop outlasts its fuel.
pub data Outcome (A : Type 0) : Type 0 where
  assert_failed : Outcome A
  fault : Outcome A
  no_fuel : Outcome A
  done : A → Heap → Outcome A

abbrev pub Cmd : Type 0 → Type 0
Cmd A = Heap → Outcome A

abbrev pub pure : {A : Type 0} → A → Cmd A
pure = done

module _ {A B : Type 0} where
  abbrev pub continue : Outcome A → (A → Cmd B) → Outcome B
  continue assert_failed k = assert_failed
  continue fault k = fault
  continue no_fuel k = no_fuel
  continue (done a h) k = k a h

  infixl 5 ◌>>=◌ ◌>>◌
  abbrev pub ◌>>=◌ : Cmd A → (A → Cmd B) → Cmd B
  m >>= k = λ h. continue (m h) k

  abbrev pub ◌>>◌ : Cmd A → Cmd B → Cmd B
  m >> n = m >>= λ _. n

abbrev pub require : Bool → Cmd (Unit {0})
require true = pure tt
require false = λ _. assert_failed

-- `*p`
unfoldable pub deref : Ptr → Cmd Node
deref p h = if p == null then fault else elim (h p) [ some n ↦ done n h | none ↦ fault ]

-- `new ListElement(v)` at the address `fresh`
unfoldable pub new_element : (fresh : Ptr) → ℕ → Cmd (Unit {0})
new_element fresh v h = done tt (put h fresh (some (element v null)))

-- `p->next = q`
unfoldable pub link_to : Ptr → Ptr → Cmd (Unit {0})
link_to p q = do n ← deref p; λ h. done tt (put h p (some (element n.item q)))

-- `delete p`
unfoldable pub delete : Ptr → Cmd (Unit {0})
delete p = do n ← deref p; λ h. done tt (put h p none)

module _ (p : Ptr) (v : ℕ) (q : Ptr) (h : Heap) (ne : p ≢ null)
    (at : h p ≡ some (element v q)) where
  pub deref-node : deref p h ≡ done (element v q) h
  unfolding deref
  deref-node = rw (ne→== p null ne, at) refl

  pub link_to-node : (r : Ptr) → link_to p r h ≡ done tt (put h p (some (element v r)))
  unfolding link_to
  link_to-node r = rw deref-node refl

  pub delete-node : delete p h ≡ done tt (put h p none)
  unfolding delete
  delete-node = rw deref-node refl
